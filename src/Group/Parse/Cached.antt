-- ===== src/Group/Parse/Cached.antt =====
-- The cache of group files of HTGroup.c.
use cern_httpd.Base.{ℕ, Option, none, some, List, [], ◌∷◌, ◌≡◌, refl, ap}
use cern_httpd.Str.{CStr}
use cern_httpd.Str.Mismatch.{streq_self}
use cern_httpd.Group.{GroupDef}
use cern_httpd.Group.Parse.{Reader, Parsed, parsed}
use cern_httpd.Group.Parse.Total.{parse_group_file-total}
use cern_httpd.Group.Parse.Groups.{Cache, cached, read_group_file, read_cached, load_groups}

abbrev ReadResult : Type 0
ReadResult = Parsed (List GroupDef) × Option Cache

-- The cache answers for this file as the call did.
abbrev Keeps : CStr → ReadResult → Type 0
Keeps name out =
    (groups : List GroupDef) × (cache : Cache) × (out ≡ (parsed groups, some cache))
    × (cached cache name ≡ some groups)

cached-front :
    (name : CStr) (groups : List GroupDef) (cache : Cache)
    → cached ((name, groups) ∷ cache) name ≡ some groups
unfolding cached
cached-front name groups cache = rw (streq_self name) refl

kept-front :
    (name : CStr) (groups : List GroupDef) (cache : Cache)
    → Keeps name (parsed groups, some ((name, groups) ∷ cache))
kept-front name groups cache =
    (groups, (name, groups) ∷ cache, refl, cached-front name groups cache)

load_groups-Keeps :
    (name : CStr) (r : Reader) (cache : Cache) → Keeps name (load_groups name (some r) cache)
unfolding load_groups cached
load_groups-Keeps name r cache =
    let (groups, e) = parse_group_file-total r in rw (e, load_groups) (kept-front name groups cache)

read_cached-Keeps :
    (open_file : CStr → Option Reader) (name : CStr) (r : Reader) (found : Option (List GroupDef))
    (cache : Cache)
    → open_file name ≡ some r
    → cached cache name ≡ found
    → Keeps name (read_cached open_file name found cache)
unfolding read_cached
read_cached-Keeps open_file name r none cache opens e = rw opens (load_groups-Keeps name r cache)
read_cached-Keeps open_file name r (some groups) cache opens e = (groups, cache, refl, e)

read_group_file-Keeps :
    (open_file : CStr → Option Reader) (c : ℕ) (name : CStr) (r : Reader) (cache : Option Cache)
    → open_file (c ∷ name) ≡ some r
    → Keeps (c ∷ name) (read_group_file open_file (some (c ∷ name)) cache)
unfolding read_group_file cached
read_group_file-Keeps open_file c name r none opens =
    read_cached-Keeps open_file (c ∷ name) r none [] opens refl
read_group_file-Keeps open_file c name r (some cache) opens =
    read_cached-Keeps open_file (c ∷ name) r (cached cache (c ∷ name)) cache opens refl

from_cache :
    (open_file : CStr → Option Reader) (c : ℕ) (name : CStr) (groups : List GroupDef)
    (cache : Cache)
    → cached cache (c ∷ name) ≡ some groups
    → read_group_file open_file (some (c ∷ name)) (some cache) ≡ (parsed groups, some cache)
unfolding read_group_file read_cached
from_cache open_file c name groups cache e = rw e refl

again :
    (open_later : CStr → Option Reader) (c : ℕ) (name : CStr) (out : ReadResult)
    → Keeps (c ∷ name) out
    → read_group_file open_later (some (c ∷ name)) out.1 ≡ out
again open_later c name out (groups, cache, e, h) =
    rw e (from_cache open_later c name groups cache h)

-- Once a file that can be opened was read, its groups come from the cache, whatever has become of
-- the file since: the next call opens nothing, returns what the first has returned, and leaves the
-- cache as it is. The first call has returned a list of groups.
pub read_group_file-again :
    (open_file open_later : CStr → Option Reader) (c : ℕ) (name : CStr) (r : Reader)
    (cache : Option Cache)
    → open_file (c ∷ name) ≡ some r
    → (read_group_file open_later
          (some (c ∷ name))
          (read_group_file open_file (some (c ∷ name)) cache).1
        ≡ read_group_file open_file (some (c ∷ name)) cache)
      × (groups : List GroupDef) × ((read_group_file open_file (some (c ∷ name)) cache).0
          ≡ parsed groups)
read_group_file-again open_file open_later c name r cache opens =
    let keeps = read_group_file-Keeps open_file c name r cache opens in
    (
      again open_later c name (read_group_file open_file (some (c ∷ name)) cache) keeps,
      keeps.0,
      ap (λ (out : ReadResult). out.0) keeps.2,
    )
