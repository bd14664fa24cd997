-- ===== src/Uu/RoundTrip.antt =====
-- HTUU_decode undoes HTUU_encode.
use mathlib.Core.Path.{ap₂}
use cern_httpd.Base.{
  ℕ, zero, suc, ◌+◌, ◌-◌, ◌*◌, ◌/◌, ◌%◌, ◌<◌, ◌≤◌, ◌≡◌, refl, ap, ◌∙◌, sym, true, [], ◌∷◌, ◌++◌,
  All, arith, get_or, ==_ne, length, take, leb, ◌≢◌,
}
use cern_httpd.Uu.{
  Bytes, dec, char1, char2, char3, char4, encode, skip_blanks, count_printable, groups,
  third_of_last, corrected, decoded_count, fitting, decode,
}
use cern_httpd.Uu.Encode.{
  dec-char1, dec-char2, dec-char3, dec-char4, group-three, group-two, group-one,
}

abbrev pub IsOctet : ℕ → Type 0
IsOctet a = a < 256

-- How many characters of the encoding are not `=`.
printable_length : Bytes → ℕ
printable_length [] = 0
printable_length (a ∷ []) = 2
printable_length (a ∷ b ∷ []) = 3
printable_length (a ∷ b ∷ c ∷ bs) = suc (suc (suc (suc (printable_length bs))))

counted : (c : ℕ) (s : Bytes) → dec c < 64 → count_printable (c ∷ s) ≡ suc (count_printable s)
unfolding count_printable
counted c s h = let e : leb (dec c) 63 ≡ true = ground arith in rw e

char1-small : (a : ℕ) → IsOctet a → dec (char1 a) < 64
char1-small a h = omega (arith, dec-char1 a h)

char2-small : (a b : ℕ) → IsOctet a → IsOctet b → dec (char2 a b) < 64
char2-small a b ha hb = omega (arith, dec-char2 a b ha hb)

char3-small : (a b : ℕ) → IsOctet a → IsOctet b → dec (char3 a b) < 64
char3-small a b ha hb = omega (arith, dec-char3 a b ha hb)

char4-small : (a : ℕ) → IsOctet a → dec (char4 a) < 64
char4-small a h = omega (arith, dec-char4 a h)

counted_pad : (s : Bytes) → count_printable (b'=' ∷ s) ≡ 0
unfolding count_printable
counted_pad s = refl

octet0 : IsOctet 0
octet0 = omega arith

count_printable-encode :
    (bs : Bytes) → All IsOctet bs → count_printable (encode bs 0 0) ≡ printable_length bs
unfolding encode printable_length
count_printable-encode [] h = unfold count_printable in refl
count_printable-encode (a ∷ []) h =
    counted (char1 a) _ (char1-small a h.0)
    ∙ ap suc (counted (char2 a 0) _ (char2-small a 0 h.0 octet0) ∙ ap suc (counted_pad (b'=' ∷ [])))
count_printable-encode (a ∷ b ∷ []) h =
    counted (char1 a) _ (char1-small a h.0)
    ∙ ap suc (
        counted (char2 a b) _ (char2-small a b h.0 h.1.0)
        ∙ ap suc (counted (char3 b 0) _ (char3-small b 0 h.1.0 octet0) ∙ ap suc (counted_pad [])))
count_printable-encode (a ∷ b ∷ c ∷ bs) h =
    counted (char1 a) _ (char1-small a h.0)
    ∙ ap suc (
        counted (char2 a b) _ (char2-small a b h.0 h.1.0)
        ∙ ap suc (
            counted (char3 b c) _ (char3-small b c h.1.0 h.1.1.0)
            ∙ ap suc (
                counted (char4 c) (encode bs 0 0) (char4-small c h.1.1.0)
                ∙ ap suc (count_printable-encode bs h.1.1.1))))

take-groups-encode :
    (bs : Bytes)
    → All IsOctet bs
    → take (length bs) (groups (printable_length bs) (encode bs 0 0)) ≡ bs
unfolding encode printable_length groups
take-groups-encode [] h = refl
take-groups-encode (a ∷ []) h = let (x, y, e) = group-one a [] h.0 in ap (take 1) e
take-groups-encode (a ∷ b ∷ []) h = let (x, e) = group-two a b [] h.0 h.1.0 in ap (take 2) e
take-groups-encode (a ∷ b ∷ c ∷ bs) h =
    ap (λ g. take (suc (suc (suc (length bs)))) (g ++ groups (printable_length bs) (encode bs 0 0)))
      (group-three a b c (encode bs 0 0) h.0 h.1.0 h.1.1.0)
    ∙ ap (λ t. a ∷ b ∷ c ∷ t) (take-groups-encode bs h.1.1.1)

-- Behind the loop of HTUU_decode.
abbrev final_count : ℕ → Bytes → ℕ
final_count n s = decoded_count ((n + 3) / 4 * 3) n s

third_of_last-group :
    (n : ℕ) (c1 c2 c3 c4 : ℕ) (s : Bytes)
    → 0 < n
    → third_of_last (suc (suc (suc (suc n)))) (c1 ∷ c2 ∷ c3 ∷ c4 ∷ s) ≡ third_of_last n s
unfolding third_of_last
third_of_last-group n c1 c2 c3 c4 s h =
    let k : ℕ = (n + 3) / 4 * 4 - 2 in
    let e : (suc (suc (suc (suc n))) + 3) / 4 * 4 - 2 ≡ suc (suc (suc (suc k))) = omega arith in
    ap (λ i. get_or (c1 ∷ c2 ∷ c3 ∷ c4 ∷ s) i 0) e

corrected-add :
    (nb left value : ℕ) → 2 ≤ nb → corrected (nb + 3) left value ≡ corrected nb left value + 3
unfolding corrected
corrected-add nb left value h = ground arith

decoded_count_lem :
    (nb n : ℕ) (s : Bytes) → decoded_count nb n s ≡ corrected nb (n % 4) (dec (third_of_last n s))
unfolding decoded_count
decoded_count_lem nb n s = refl

final_count-group :
    (n : ℕ) (c1 c2 c3 c4 : ℕ) (s : Bytes)
    → final_count (suc (suc (suc (suc n)))) (c1 ∷ c2 ∷ c3 ∷ c4 ∷ s) ≡ final_count n s + 3
final_count-group zero c1 c2 c3 c4 s = unfold decoded_count in refl
final_count-group (suc n) c1 c2 c3 c4 s =
    let nb : ℕ = (suc n + 3) / 4 * 3 in
    let e : (suc (suc (suc (suc (suc n)))) + 3) / 4 * 3 ≡ nb + 3 = omega arith in
    let r : suc (suc (suc (suc (suc n)))) % 4 ≡ suc n % 4 = omega arith in
    decoded_count_lem _ (suc (suc (suc (suc (suc n))))) (c1 ∷ c2 ∷ c3 ∷ c4 ∷ s)
    ∙ ap₂
        (λ x y.
          corrected x y
            (dec (third_of_last (suc (suc (suc (suc (suc n))))) (c1 ∷ c2 ∷ c3 ∷ c4 ∷ s))))
        e r
    ∙ ap (λ t. corrected (nb + 3) (suc n % 4) (dec t))
        (third_of_last-group (suc n) c1 c2 c3 c4 s (omega arith))
    ∙ corrected-add nb (suc n % 4) (dec (third_of_last (suc n) s)) (omega arith)
    ∙ ap (λ t. t + 3) (sym (decoded_count_lem nb (suc n) s))

corrected_two : (value : ℕ) → value < 64 → corrected 3 3 value ≡ 2
unfolding corrected
corrected_two value h = ground arith

final_count-encode :
    (bs : Bytes) → All IsOctet bs → final_count (printable_length bs) (encode bs 0 0) ≡ length bs
unfolding encode printable_length decoded_count
final_count-encode [] h = unfold decoded_count in refl
final_count-encode (a ∷ []) h = unfold decoded_count in refl
final_count-encode (a ∷ b ∷ []) h =
    ap (corrected 3 3) (dec-char3 b 0 h.1.0 octet0)
    ∙ corrected_two (b % 16 * 4 + 0 / 64) (omega arith)
final_count-encode (a ∷ b ∷ c ∷ bs) h =
    final_count-group (printable_length bs) (char1 a) (char2 a b) (char3 b c) (char4 c)
      (encode bs 0 0)
    ∙ omega (arith, final_count-encode bs h.1.1.1)

dec_space : dec b' ' ≡ 64
unfolding dec
dec_space = refl

dec_tab : dec 9 ≡ 64
unfolding dec
dec_tab = refl

printable-ne-blank : (c : ℕ) → dec c < 64 → (c ≢ b' ') × (c ≢ 9)
printable-ne-blank c h = (
  λ e. let d : dec c ≡ 64 = ap dec e ∙ dec_space in omega arith,
  λ e. let d : dec c ≡ 64 = ap dec e ∙ dec_tab in omega arith,
)

skip_blanks_printable : (c : ℕ) (s : Bytes) → dec c < 64 → skip_blanks (c ∷ s) ≡ c ∷ s
unfolding skip_blanks
skip_blanks_printable c s h =
    let (space, tab) = printable-ne-blank c h in rw (==_ne c b' ' space, ==_ne c 9 tab)

skip_blanks-encode : (bs : Bytes) → All IsOctet bs → skip_blanks (encode bs 0 0) ≡ encode bs 0 0
unfolding encode
skip_blanks-encode [] h = unfold skip_blanks in refl
skip_blanks-encode (a ∷ []) h = skip_blanks_printable (char1 a) _ (char1-small a h.0)
skip_blanks-encode (a ∷ b ∷ []) h = skip_blanks_printable (char1 a) _ (char1-small a h.0)
skip_blanks-encode (a ∷ b ∷ c ∷ bs) h = skip_blanks_printable (char1 a) _ (char1-small a h.0)

room_for : (bs : Bytes) → (printable_length bs + 3) / 4 * 3 ≡ (length bs + 2) / 3 * 3
unfolding printable_length
room_for [] = refl
room_for (a ∷ []) = refl
room_for (a ∷ b ∷ []) = refl
room_for (a ∷ b ∷ c ∷ bs) = omega (arith, room_for bs)

-- What HTUU_decode does behind the blanks.
abbrev decode_from : ℕ → Bytes → Bytes × ℕ
decode_from outbufsize s =
    let n = count_printable s in
    let m = fitting outbufsize n in (groups m s, decoded_count ((n + 3) / 4 * 3) m s)

decode_open :
    (bufcoded : Bytes) (outbufsize : ℕ)
    → decode bufcoded outbufsize ≡ decode_from outbufsize (skip_blanks bufcoded)
unfolding decode
decode_open bufcoded outbufsize = refl

decode_lem :
    (bufcoded : Bytes) (outbufsize : ℕ) (s : Bytes) (n : ℕ)
    → skip_blanks bufcoded ≡ s
    → count_printable s ≡ n
    → fitting outbufsize n ≡ n
    → decode bufcoded outbufsize ≡ (groups n s, final_count n s)
decode_lem bufcoded outbufsize s n skipped counts fits =
    decode_open bufcoded outbufsize
    ∙ ap (decode_from outbufsize) skipped
    ∙ ap
        (λ k. (
          groups (fitting outbufsize k) s,
          decoded_count ((k + 3) / 4 * 3) (fitting outbufsize k) s,
        ))
        counts
    ∙ ap (λ m. (groups m s, decoded_count ((n + 3) / 4 * 3) m s)) fits

fitting-room : (outbufsize n : ℕ) → (n + 3) / 4 * 3 ≤ outbufsize → fitting outbufsize n ≡ n
unfolding fitting
fitting-room outbufsize n h = ground arith

-- HTUU_decode, given the encoding of a string of bytes and room for its groups of three, returns
-- the number of the bytes, and has written these bytes.
pub decode-encode :
    (bs : Bytes) (outbufsize : ℕ)
    → All IsOctet bs
    → (length bs + 2) / 3 * 3 ≤ outbufsize
    → ((decode (encode bs 0 0) outbufsize).1 ≡ length bs)
      × (take (length bs) (decode (encode bs 0 0) outbufsize).0 ≡ bs)
decode-encode bs outbufsize h room =
    let whole =
      decode_lem (encode bs 0 0) outbufsize (encode bs 0 0) (printable_length bs)
        (skip_blanks-encode bs h) (count_printable-encode bs h)
        (fitting-room outbufsize (printable_length bs) (omega (arith, room_for bs))) in
    (
      ap (λ (r : Bytes × ℕ). r.1) whole ∙ final_count-encode bs h,
      ap (λ (r : Bytes × ℕ). take (length bs) r.0) whole ∙ take-groups-encode bs h,
    )
