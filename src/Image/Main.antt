-- ===== src/Image/Main.antt =====
-- The program htimage: main of Daemon/Implementation/HTImage.c.
--
-- The environment's variables are arguments (`none` where one is not set), and so are IMAGE_DIR and
-- the function that opens a file and reads it.
use cern_httpd.Base.{
  ℕ, zero, suc, ◌||◌, Option, none, some, List, [], ◌∷◌, ◌++◌, if◌then◌else◌, ◌==◌, length, codes,
  is_some,
}
use cern_httpd.Base.Int.{negsuc}
use cern_httpd.Str.{CStr, strchr, chop_at, streq}
use cern_httpd.Image.{Coord, Pict, Outcome, done, dead, overrun, starved, atoi, eq_ℤ}
use cern_httpd.Image.Picture.{parse_picture}
use cern_httpd.Image.Area.{Floats, get_url}

-- What the program writes: a location, or the page of fatal. Where the lexer writes over the end of
-- lex_str it is `out_of_bounds`, and without fuel `unfinished`.
pub data Reply : Type 0 where
  location : CStr → Reply
  error_page : Reply
  out_of_bounds : Reply
  unfinished : Reply

-- `x` and `y` behind a field of the form.
unfoldable pub set_coord : CStr → CStr → Coord → Coord
unfolding streq atoi
set_coord name value c =
    if streq name (codes "x")
    then record { x = atoi value; y = c.y }
    else if streq name (codes "y")
    then record { x = c.x; y = atoi value }
    else c

-- What follows a separator.
unfoldable pub behind_mark : Option CStr → Option CStr
behind_mark none = none
behind_mark (some []) = none
behind_mark (some (c ∷ s)) = some s

-- One field, with what the rounds for the fields behind it do.
unfoldable pub form_field : Option CStr → CStr → Coord → (Option CStr → Coord → Coord) → Coord
unfolding set_coord behind_mark strchr chop_at
form_field none cur c more = c
form_field (some end1) cur c more =
    more (behind_mark (strchr end1 b'&')) (set_coord (chop_at b'=' cur) (chop_at b'&' end1) c)

-- The loop over the fields of a form; it has one round for each `&` at most.
unfoldable pub form_loop : ℕ → Option CStr → Coord → Coord
unfolding form_field behind_mark strchr
form_loop zero cur c = c
form_loop (suc fuel) none c = c
form_loop (suc fuel) (some cur) c =
    form_field (behind_mark (strchr cur b'=')) cur c (form_loop fuel)

unfoldable pub checked_coord : Coord → Option Coord
unfolding eq_ℤ
checked_coord c = if eq_ℤ c.x (negsuc 0) || eq_ℤ c.y (negsuc 0) then none else some c

unfoldable pub comma_coord : CStr → Option CStr → Option Coord
unfolding atoi chop_at
comma_coord coords none = none
comma_coord coords (some p) = some (record { x = atoi (chop_at b',' coords); y = atoi p })

-- The point that QUERY_STRING stands for; `none` is bad_query_string.
unfoldable pub query_coord : CStr → Option Coord
unfolding form_loop checked_coord comma_coord behind_mark strchr
query_coord coords =
    if is_some (strchr coords b'=')
    then checked_coord
        (form_loop (suc (length coords)) (some coords) (record { x = negsuc 0; y = negsuc 0 }))
    else comma_coord coords (behind_mark (strchr coords b','))

-- IMAGE_DIR and a path, with a slash between them.
unfoldable pub joined_path : CStr → CStr → CStr
joined_path dir [] = dir ++ codes "/"
joined_path dir (c ∷ path) =
    if c == b'/' then dir ++ (c ∷ path) else dir ++ (codes "/" ++ (c ∷ path))

unfoldable pub in_dir : Option CStr → Option CStr → Option CStr
unfolding joined_path
in_dir none path = none
in_dir (some dir) none = none
in_dir (some dir) (some path) = some (joined_path dir path)

module _ (open_file : CStr → Option (List ℕ)) where
  -- The first of the names that are there whose file opens.
  unfoldable pub first_open : List (Option CStr) → Option (List ℕ)
  first_open [] = none
  first_open (none ∷ names) = first_open names
  first_open (some name ∷ names) =
      let further = first_open names in
      elim (open_file name) [ some text ↦ some text | none ↦ further ]

  unfoldable pub config_text : Option CStr → Option CStr → Option CStr → Option (List ℕ)
  unfolding first_open in_dir
  config_text image_dir path_info path_translated = first_open (
      in_dir image_dir path_info
      ∷ in_dir image_dir path_translated
      ∷ path_translated
      ∷ path_info
      ∷ [])

module _ (fl : Floats) where
  unfoldable pub url_reply : Option CStr → Reply
  url_reply none = error_page
  url_reply (some url) = location url

  unfoldable pub picture_reply : Coord → Outcome Pict → Reply
  unfolding url_reply get_url
  picture_reply c (done pict r) = url_reply (get_url fl pict c.x c.y)
  picture_reply c (dead rest) = error_page
  picture_reply c overrun = out_of_bounds
  picture_reply c starved = unfinished

  unfoldable pub point_reply : Option (List ℕ) → Option Coord → Reply
  unfolding picture_reply parse_picture
  point_reply text none = error_page
  point_reply none (some c) = error_page
  point_reply (some text) (some c) = picture_reply c (parse_picture text)

  -- main
  unfoldable pub htimage :
      (CStr → Option (List ℕ)) → Option CStr → Option CStr → Option CStr → Option CStr → Reply
  unfolding point_reply config_text query_coord
  htimage open_file image_dir none none query = error_page
  htimage open_file image_dir path_info path_translated none = error_page
  htimage open_file image_dir path_info path_translated (some query) =
      point_reply (config_text open_file image_dir path_info path_translated) (query_coord query)
