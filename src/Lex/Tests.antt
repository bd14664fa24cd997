-- ===== src/Lex/Tests.antt =====
-- The theorem on the strings of HTLex.c at a concrete input.
use cern_httpd.Lex.Progress.{item_size, item_of_call, lex-reaches_eof}
use cern_httpd.Base.{ℕ, ◌+◌, ◌≤◌, ◌≡◌, length, codes}
use cern_httpd.Lex.{initial, lex_eof}

lex-reaches_eof_example :
    (n : ℕ) × (n ≤ item_size initial.pushed_back + length (codes "staff: tim, (ari"))
    × (item_of_call n 3 initial (codes "staff: tim, (ari") ≡ lex_eof)
lex-reaches_eof_example = lex-reaches_eof 3 initial (codes "staff: tim, (ari")
