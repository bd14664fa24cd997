-- ===== src/Parse/Relative.antt =====
-- HTRelative of Library/Implementation/HTParse.c.
use cern_httpd.Base.{
  ℕ, suc, Option, none, some, [], ◌∷◌, ◌++◌, ltb, ◌==◌, if◌then◌else◌, drop, codes,
}
use cern_httpd.Str.{CStr, chop_at}

-- What the loop that compares the addresses has found, with the rest of the related one at its end.
pub record Extent : Type 0 where
  pub after_access : Option CStr
  pub last_slash : CStr
  pub slashes : ℕ
  pub q : CStr

unfoldable pub note_colon : ℕ → CStr → Option CStr → Option CStr
note_colon c p after_access = if c == b':' then some p else after_access

-- `for(;*p; p++, q++)`
unfoldable pub compare_loop : Option CStr → CStr → ℕ → CStr → CStr → Extent
unfolding note_colon
compare_loop after_access last_slash slashes [] q = record {
  after_access = after_access;
  last_slash = last_slash;
  slashes = slashes;
  q = q;
}
compare_loop after_access last_slash slashes (c ∷ p) [] = record {
  after_access = after_access;
  last_slash = last_slash;
  slashes = slashes;
  q = [];
}
compare_loop after_access last_slash slashes (c ∷ p) (d ∷ q) =
    let slashed = compare_loop (note_colon c p after_access) (c ∷ p) (suc slashes) p q in
    let plain = compare_loop (note_colon c p after_access) last_slash slashes p q in
    if c == d then (if c == b'/' then slashed else plain) else record {
      after_access = after_access;
      last_slash = last_slash;
      slashes = slashes;
      q = d ∷ q;
    }

-- A step up for each slash.
unfoldable pub steps_up : CStr → CStr
steps_up [] = []
steps_up (c ∷ q) = let rest = steps_up q in if c == b'/' then codes "../" ++ rest else rest

unfoldable pub relative_to : CStr → Extent → CStr
unfolding steps_up chop_at
relative_to name extent = elim extent.after_access [
  | none ↦ name
  | some after_access ↦
      if ltb extent.slashes 3
      then after_access
      else steps_up (chop_at b'#' extent.q) ++ drop 1 extent.last_slash
]

-- HTRelative
unfoldable pub ht_relative : CStr → CStr → CStr
unfolding compare_loop relative_to
ht_relative name related_name = relative_to name (compare_loop none [] 0 name related_name)
