-- ===== src/Image/Reply.antt =====
-- What the program htimage answers (HTImage.c).
use cern_httpd.Base.{
  ℕ, suc, ◌≡◌, ◌≢◌, refl, sym, ap, ◌∙◌, false, Option, none, some, List, [], ◌∷◌, ◌++◌, All,
  All-append, length, codes, ==_ne, arith,
}
use cern_httpd.Base.Int.{negsuc}
use cern_httpd.Str.{CStr, strchr, chop_at}
use cern_httpd.Parse.Address.RoundTrip.{Lacks, chop_at-append, chop_at-Lacks, strchr-append}
use cern_httpd.Image.{Coord, atoi, eq_ℤ}
use cern_httpd.Image.Area.{Floats}
use cern_httpd.Image.Main.{
  set_coord, behind_mark, form_loop, checked_coord, comma_coord, query_coord, config_text,
  point_reply, htimage,
}

strchr-none : (c : ℕ) (s : CStr) → Lacks c s → strchr s c ≡ none
unfolding strchr
strchr-none c [] h = refl
strchr-none c (d ∷ s) h = rw (==_ne d c h.0) (strchr-none c s h.1)

-- The point of the numbers `a` and `b`.
abbrev pub point : CStr → CStr → Coord
point a b = record { x = atoi a; y = atoi b }

query_coord-comma :
    (a b : CStr)
    → Lacks b'=' a
    → Lacks b'=' b
    → Lacks b',' a
    → query_coord (a ++ (b',' ∷ b)) ≡ some (point a b)
unfolding query_coord comma_coord behind_mark
query_coord-comma a b ha hb hc =
    rw
      (
        strchr-none b'=' (a ++ (b',' ∷ b))
            (All-append (λ d. d ≢ b'=') a (b',' ∷ b) ha ((omega arith), hb)),
        strchr-append b',' a b hc,
      )
      (ap (λ (t : CStr). some (record { x = atoi t; y = atoi b })) (chop_at-append b',' a b hc))

-- The form's query `x=a&y=b`.
abbrev pub form_query : CStr → CStr → CStr
form_query a b = b'x' ∷ b'=' ∷ (a ++ (b'&' ∷ b'y' ∷ b'=' ∷ b))

form_y :
    (fuel : ℕ) (b : CStr) (c : Coord)
    → Lacks b'&' b
    → form_loop (suc (suc fuel)) (some (b'y' ∷ b'=' ∷ b)) c ≡ record { x = c.x; y = atoi b }
unfolding form_loop set_coord
form_y fuel b c h =
    ap
      (λ (o : Option CStr).
        form_loop (suc fuel) (behind_mark o) (set_coord (codes "y") (chop_at b'&' b) c))
      (strchr-none b'&' b h)
    ∙ ap (λ (t : CStr). set_coord (codes "y") t c) (chop_at-Lacks b'&' b h)

form_x :
    (fuel : ℕ) (a rest : CStr) (c : Coord)
    → Lacks b'&' a
    → form_loop (suc fuel) (some (b'x' ∷ b'=' ∷ (a ++ (b'&' ∷ rest)))) c
      ≡ form_loop fuel (some rest) (record { x = atoi a; y = c.y })
unfolding form_loop set_coord
form_x fuel a rest c h =
    ap
      (λ (o : Option CStr).
        form_loop fuel (behind_mark o)
          (set_coord (codes "x") (chop_at b'&' (a ++ (b'&' ∷ rest))) c))
      (strchr-append b'&' a rest h)
    ∙ ap (λ (t : CStr). form_loop fuel (some rest) (set_coord (codes "x") t c))
        (chop_at-append b'&' a rest h)

query_coord-form :
    (a b : CStr)
    → Lacks b'&' a
    → Lacks b'&' b
    → query_coord (form_query a b) ≡ checked_coord (point a b)
unfolding query_coord
query_coord-form a b ha hb = ap checked_coord (
    form_x (length (form_query a b)) a (b'y' ∷ b'=' ∷ b) (record { x = negsuc 0; y = negsuc 0 }) ha
    ∙ form_y (length (a ++ (b'&' ∷ b'y' ∷ b'=' ∷ b))) b (record { x = atoi a; y = negsuc 0 }) hb)

-- A text without the separators of a query.
abbrev pub IsValue : CStr → Type 0
IsValue s = All (λ d. (d ≢ b'=') × (d ≢ b',') × (d ≢ b'&')) s

without_equals : (s : CStr) → IsValue s → Lacks b'=' s
without_equals [] h = tt
without_equals (d ∷ s) h = (h.0.0, without_equals s h.1)

without_comma : (s : CStr) → IsValue s → Lacks b',' s
without_comma [] h = tt
without_comma (d ∷ s) h = (h.0.1, without_comma s h.1)

without_ampersand : (s : CStr) → IsValue s → Lacks b'&' s
without_ampersand [] h = tt
without_ampersand (d ∷ s) h = (h.0.2, without_ampersand s h.1)

coord_checked :
    (c : Coord)
    → eq_ℤ c.x (negsuc 0) ≡ false
    → eq_ℤ c.y (negsuc 0) ≡ false
    → checked_coord c ≡ some c
unfolding checked_coord
coord_checked c nx ny = rw (nx, ny) refl

htimage-query :
    (fl : Floats) (open_file : CStr → Option (List ℕ))
    (image_dir path_info path_translated : Option CStr) (query other : CStr)
    → query_coord query ≡ query_coord other
    → htimage fl open_file image_dir path_info path_translated (some query)
      ≡ htimage fl open_file image_dir path_info path_translated (some other)
unfolding htimage
htimage-query fl open_file image_dir none none query other e = refl
htimage-query fl open_file image_dir (some info) none query other e =
    ap (point_reply fl (config_text open_file image_dir (some info) none)) e
htimage-query fl open_file image_dir none (some path) query other e =
    ap (point_reply fl (config_text open_file image_dir none (some path))) e
htimage-query fl open_file image_dir (some info) (some path) query other e =
    ap (point_reply fl (config_text open_file image_dir (some info) (some path))) e

-- The two ways in which a client sends a point are the same for htimage: whatever the files and the
-- picture are, it answers the query `x=a&y=b` of a form as it answers the query `a,b` of a clickable
-- image, if `a` and `b` have no separator and atoi takes neither for -1.
pub htimage-form_query :
    (fl : Floats) (open_file : CStr → Option (List ℕ))
    (image_dir path_info path_translated : Option CStr) (a b : CStr)
    → IsValue a
    → IsValue b
    → eq_ℤ (atoi a) (negsuc 0) ≡ false
    → eq_ℤ (atoi b) (negsuc 0) ≡ false
    → htimage fl open_file image_dir path_info path_translated (some (form_query a b))
      ≡ htimage fl open_file image_dir path_info path_translated (some (a ++ (b',' ∷ b)))
htimage-form_query fl open_file image_dir path_info path_translated a b ha hb nx ny =
    let by_form =
      query_coord-form a b (without_ampersand a ha) (without_ampersand b hb)
      ∙ coord_checked (point a b) nx ny in
    let by_comma =
      query_coord-comma a b (without_equals a ha) (without_equals b hb) (without_comma a ha) in
    htimage-query fl open_file image_dir path_info path_translated (form_query a b)
      (a ++ (b',' ∷ b)) (by_form ∙ sym by_comma)
