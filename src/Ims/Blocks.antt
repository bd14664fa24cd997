-- ===== src/Ims/Blocks.antt =====
-- The blocks that the stream of HTims.c is fed with.
use cern_httpd.Base.{ℕ, some, List, [], ◌∷◌, ◌++◌}
use cern_httpd.Base.Int.{ℤ}
use cern_httpd.Str.{CStr}
use cern_httpd.Ims.{Ims, pass_rest, ims_put_block}

-- What IMS_put_block does behind its loop.
abbrev put_rest : Ims × List ℕ → Ims
put_rest (me, rest) = pass_rest me.state rest me

-- The blocks in one piece.
abbrev pub joined : List (List ℕ) → List ℕ
joined [] = []
joined (b ∷ blocks) = b ++ joined blocks

-- The stream after the blocks of a response.
abbrev pub feed : (CStr → ℤ × CStr) → Ims → List (List ℕ) → Ims
feed parse me [] = me
feed parse me (b ∷ blocks) = feed parse (ims_put_block parse me (some b)) blocks
