-- ===== src/Mime/Tests.antt =====
-- The theorems on HTMIME.c at a concrete message.
use cern_httpd.Base.{
  ℕ, ◌≡◌, refl, arith, inr, true, false, none, some, List, [], ◌∷◌, ◌++◌, codes, if◌then◌else◌,
  Option,
}
use cern_httpd.Str.{streq, white, to_lower}
use cern_httpd.Mime.{
  Mime, StreamStack, or_sink, put_characters, mime_convert, net_mime, mime_free, mime_abort,
  junk_line, put_character, CStr,
}
use cern_httpd.Mime.Streams.{one_char, one_string, one_block, feed, opened, mime-faultless}
use cern_httpd.Mime.Blocks.{flat, writes, joined, writes-chars, content}
use cern_httpd.Mime.Line.{TypeSet, content_type-line}
use cern_httpd.Mime.Fold.{folded_junk-sets_type}
use cern_httpd.Mime.Body.{blank_line-body, taken_by}

abbrev html_only : StreamStack
html_only format = if streq format (codes "text/html") then some 7 else none

abbrev message : List ℕ
message =
    codes "Date: x" ++ 10 ∷ codes "content-TYPE: text/html " ++ 13 ∷ 10 ∷ 13 ∷ 10 ∷ codes "<P>"

abbrev seen : Mime → CStr × Option ℕ × List ℕ
seen me = (me.format, me.target, content me.sent)

whole_message :
    seen (put_characters html_only (net_mime none) message)
    ≡ (codes "text/html", some 7, codes "<P>")
unfolding net_mime put_character content streq
whole_message = refl

mime-faultless_example :
    ((mime_free (
        feed html_only
          (opened true (some 3))
          (one_char 13 ∷ one_string (codes "a: b") ∷ one_block message ∷ []))).fault
      ≡ false)
    × ((mime_abort 5 (
          feed html_only
            (opened true (some 3))
            (one_char 13 ∷ one_string (codes "a: b") ∷ one_block message ∷ []))).fault
        ≡ false)
mime-faultless_example =
    mime-faultless html_only true (some 3)
      (one_char 13 ∷ one_string (codes "a: b") ∷ one_block message ∷ []) 5

writes-chars_example :
    flat (writes html_only (net_mime none) (message ∷ codes "more" ∷ [] ∷ []))
    ≡ flat (put_characters html_only (net_mime none) (joined (message ∷ codes "more" ∷ [] ∷ [])))
writes-chars_example =
    writes-chars html_only (net_mime none) (message ∷ codes "more" ∷ [] ∷ [])
      (unfold net_mime in (refl, tt))

content_type-line_example : TypeSet (codes "text/html;x=y") (
    put_characters html_only (mime_convert none) (
      ((b'C' ∷ codes "ontent-T") ++ (b'y' ∷ codes "pe:"))
      ++ (codes " " ++ b't' ∷ (codes "ext/html; x=y" ++ 10 ∷ []))))
unfolding white
content_type-line_example =
    content_type-line html_only (mime_convert none) b'C' b'y' (codes "ontent-T") (codes "pe:")
      (codes " ") (codes "ext/html; x=y") b't' (unfold mime_convert in inr refl) refl
      (unfold to_lower in refl) refl (unfold to_lower in refl) (unfold white in ((refl, refl), tt))
      (refl, tt) (unfold white in refl)
      (
        refl,
        (
          refl,
          (
            refl,
            (refl, (refl, (refl, (refl, (refl, (refl, (refl, (refl, (refl, (refl, tt)))))))))),
          ),
        ),
      )
      (unfold white in omega arith)

abbrev junked : Mime
junked = record (mime_convert none) { state = junk_line }

folded_junk-sets_type_example : TypeSet (codes "x") (
    put_characters html_only junked (
      (codes "ef" ++ 10 ∷ b' ' ∷ [])
      ++ (((b'C' ∷ codes "ontent-T") ++ (b'y' ∷ codes "pe:")) ++ (b'x' ∷ ([] ++ 10 ∷ [])))))
folded_junk-sets_type_example =
    folded_junk-sets_type html_only junked (codes "ef") b' ' b'C' b'y' (codes "ontent-T")
      (codes "pe:") [] b'x' refl (refl, (refl, tt)) (unfold white in (refl, refl)) refl
      (unfold to_lower in refl) refl (unfold to_lower in refl) (unfold white in refl) tt
      (omega arith)

blank_line-body_example :
    let target = or_sink (html_only (mime_convert (some 3)).format) (mime_convert (some 3)).sink in
    let m = put_characters html_only (mime_convert (some 3)) (10 ∷ codes "body") in
    (m.target ≡ target)
    × (content m.sent ≡ content (mime_convert (some 3)).sent ++ taken_by target (codes "body"))
blank_line-body_example =
    blank_line-body html_only (mime_convert (some 3)) (codes "body")
      (unfold mime_convert in inr refl) (unfold mime_convert in refl)
