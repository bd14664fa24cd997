-- ===== src/BTree/Sound.antt =====
-- The balancing of HTBTree.c ends without following NULL, and keeps the invariant and the objects.
use mathlib.Core.Path.{subst}
use cern_httpd.Base.{
  ◌+◌, if◌then◌else◌, ◌⊎◌, ℕ, zero, suc, ◌≡◌, refl, ap, ◌∙◌, Bool, true, false, Option, some, List,
  [], ◌∷◌, arith, Bool-cases, inl, inr, ◌||◌, ◌&&◌, ltb, ◌⊎◌,
}
use cern_httpd.Base.Int.{ℤ}
use cern_httpd.BTree.{
  Element, null, element, Frame, from_left, from_right, Place, up, search, is_null, right_exception,
  left_exception, correct, is_balanced, balance, climb, settle, leaf, is_negative,
}
use cern_httpd.BTree.Depths.{
  depth, IsDeep, PathIsDeep, objects, around, IsSound, Sound, rotate_right-Sound, rotate_left-Sound,
}

module _ {ℓ} {A : Type ℓ} where
  -- Where the exceptions are tested, no NULL is followed.
  right_exception-total :
      (l : Element A) (ld : ℕ) (o : A) (rd : ℕ) (r : Element A)
      → IsDeep (element l ld o rd r)
      → is_balanced (element l ld o rd r) ≡ some false
      → (b : Bool) × (right_exception (element l ld o rd r) ≡ some b)
  unfolding right_exception is_balanced
  right_exception-total (element ll lld lo lrd lr) ld o rd r h b = (false, refl)
  right_exception-total null ld o rd null h b = absurd (ground arith)
  right_exception-total null ld o rd (element rl rld ro rrd (element a b c d e)) h n = (false, refl)
  right_exception-total null ld o rd (element null rld ro rrd null) h b = absurd (ground arith)
  right_exception-total null ld o rd (element (element null a b c d) rld ro rrd null) h n =
      (is_null d, refl)
  right_exception-total null ld o rd (element (element (element x y z u v) a b c d) rld ro rrd null)
        h n =
      (false, refl)

  left_exception-total :
      (l : Element A) (ld : ℕ) (o : A) (rd : ℕ) (r : Element A)
      → IsDeep (element l ld o rd r)
      → is_balanced (element l ld o rd r) ≡ some false
      → (b : Bool) × (left_exception (element l ld o rd r) ≡ some b)
  unfolding left_exception is_balanced
  left_exception-total l ld o rd (element rl rld ro rrd rr) h b = (false, refl)
  left_exception-total null ld o rd null h b = absurd (ground arith)
  left_exception-total (element (element a b c d e) lld lo lrd lr) ld o rd null h n = (false, refl)
  left_exception-total (element null lld lo lrd null) ld o rd null h b = absurd (ground arith)
  left_exception-total (element null lld lo lrd (element a b c d null)) ld o rd null h n =
      (is_null a, refl)
  left_exception-total (element null lld lo lrd (element a b c d (element x y z u v))) ld o rd null
        h n =
      (false, refl)

  is_balanced-right :
      (l : Element A) (ld : ℕ) (o : A) (rd : ℕ) (r : Element A)
      → is_balanced (element l ld o rd r) ≡ some false
      → ltb rd ld ≡ false
      → ltb ld rd ≡ true
  unfolding is_balanced
  is_balanced-right l ld o rd r n e = ground arith

  correct-Sound :
      (path : List (Frame A)) (l : Element A) (ld : ℕ) (o : A) (rd : ℕ) (r : Element A)
      → IsDeep (element l ld o rd r)
      → PathIsDeep (depth (element l ld o rd r)) path
      → is_balanced (element l ld o rd r) ≡ some false
      → (b : Bool) × (p : Place A) × (correct path (element l ld o rd r) ≡ some (b, p))
        × IsSound (around path (objects (element l ld o rd r))) p
  unfolding correct
  correct-Sound path l ld o rd r h hp n =
      let (b, eb) = right_exception-total l ld o rd r h n in
      let (c, ec) = left_exception-total l ld o rd r h n in
      elim (Bool-cases (ltb rd ld)) [
        | inl e ↦
            let (p, ep, s) = rotate_right-Sound path l ld o rd r h hp e in
            (b || c, p, rw (eb, ec, e, ep) refl, s)
        | inr e ↦
            let (p, ep, s) =
              rotate_left-Sound path l ld o rd r h hp (is_balanced-right l ld o rd r n e) in
            (b || c, p, rw (eb, ec, e, ep) refl, s)
      ]

  is_balanced-total :
      (l : Element A) (ld : ℕ) (o : A) (rd : ℕ) (r : Element A)
      → (is_balanced (element l ld o rd r) ≡ some true)
        ⊎ (is_balanced (element l ld o rd r) ≡ some false)
  unfolding is_balanced
  is_balanced-total l ld o rd r = elim (Bool-cases (ltb ld (rd + 2) && ltb rd (ld + 2))) [
    | inl e ↦ inl (ap some e)
    | inr e ↦ inr (ap some e)
  ]

  Sound-if :
      (xs : List A) (b : Bool) (p : Place A) (rest : Option (Place A))
      → IsSound xs p
      → Sound xs rest
      → Sound xs (if b then some p else rest)
  Sound-if xs true p rest h hr = (p, refl, h)
  Sound-if xs false p rest h hr = hr

  -- A father is as sound as the child in it.
  up-IsDeep :
      (f : Frame A) (path : List (Frame A)) (e : Element A)
      → IsDeep e
      → PathIsDeep (depth e) (f ∷ path)
      → IsDeep (up f e) × PathIsDeep (depth (up f e)) path
  up-IsDeep (from_left ld o rd r) path e h hp = ((hp.0, hp.1, h, hp.2), hp.3)
  up-IsDeep (from_right l ld o rd) path e h hp = ((hp.0, hp.1, hp.2, h), hp.3)

  around-up :
      (f : Frame A) (path : List (Frame A)) (e : Element A)
      → around path (objects (up f e)) ≡ around (f ∷ path) (objects e)
  around-up (from_left ld o rd r) path e = refl
  around-up (from_right l ld o rd) path e = refl

  up-not_null : (f : Frame A) (e : Element A) → is_null (up f e) ≡ false
  up-not_null (from_left ld o rd r) e = refl
  up-not_null (from_right l ld o rd) e = refl

  -- From a sound place the balancing loop ends, and at a sound place of the same objects.
  balance-Sound :
      (n : ℕ) (path : List (Frame A)) (e : Element A)
      → IsDeep e
      → PathIsDeep (depth e) path
      → is_null e ≡ false
      → Sound (around path (objects e)) (balance n path e)
  unfolding balance
  balance-Sound zero path e h hp nn =
      (_, refl, record { deep = h; path_deep = hp; not_null = nn; order = refl })
  balance-Sound (suc n) path null h hp nn = absurd (cc)
  balance-Sound (suc n) [] (element l ld o rd r) h hp nn = elim (is_balanced-total l ld o rd r) [
    | inl e ↦ rw e (_, refl, record { deep = h; path_deep = hp; not_null = nn; order = refl })
    | inr e ↦
        let (b, p, ep, s) = correct-Sound [] l ld o rd r h hp e in
        let rest = balance-Sound n p.path p.here s.deep s.path_deep s.not_null in
        rw (e, ep)
          (Sound-if _ b p _ s
            (subst (λ (xs : List A). Sound xs (balance n p.path p.here)) s.order rest))
  ]
  balance-Sound (suc n) (f ∷ path) (element l ld o rd r) h hp nn =
      elim (is_balanced-total l ld o rd r) [
        | inl e ↦
            let (hu, hpu) = up-IsDeep f path (element l ld o rd r) h hp in
            let risen =
              balance-Sound (suc n) path (up f (element l ld o rd r)) hu hpu (up-not_null f _) in
            rw e (
              subst (λ (xs : List A). Sound xs (balance (suc n) path (up f (element l ld o rd r))))
                (around-up f path (element l ld o rd r)) risen)
        | inr e ↦
            let (b, p, ep, s) = correct-Sound (f ∷ path) l ld o rd r h hp e in
            let rest = balance-Sound n p.path p.here s.deep s.path_deep s.not_null in
            rw (e, ep)
              (Sound-if _ b p _ s
                (subst (λ (xs : List A). Sound xs (balance n p.path p.here)) s.order rest))
      ]

  climb-IsDeep :
      (path : List (Frame A)) (e : Element A)
      → IsDeep e
      → PathIsDeep (depth e) path
      → IsDeep (climb path e) × (objects (climb path e) ≡ around path (objects e))
  unfolding climb
  climb-IsDeep [] e h hp = (h, refl)
  climb-IsDeep (f ∷ path) e h hp =
      let (hu, hpu) = up-IsDeep f path e h hp in
      let (d, o) = climb-IsDeep path (up f e) hu hpu in (d, o ∙ around-up f path e)

  -- Behind the search, the new element gets its place in a sound tree.
  pub settle-IsDeep :
      (object : A) (path : List (Frame A))
      → PathIsDeep 1 path
      → (top : Element A) × (settle object path ≡ some top)
        × IsDeep top
        × (objects top ≡ around path (object ∷ []))
  unfolding settle
  settle-IsDeep object [] hp = (leaf object, refl, (refl, refl, tt, tt), refl)
  settle-IsDeep object (f ∷ path) hp =
      let (hu, hpu) = up-IsDeep f path (leaf object) (refl, refl, tt, tt) hp in
      let (p, ep, s) = balance-Sound 7 path (up f (leaf object)) hu hpu (up-not_null f _) in
      let (d, o) = climb-IsDeep p.path p.here s.deep s.path_deep in
      (climb p.path p.here, rw ep refl, d, o ∙ s.order ∙ around-up f path (leaf object))

  pub search-PathIsDeep :
      (compare : A → A → ℤ) (object : A) (e : Element A) (path : List (Frame A))
      → IsDeep e
      → PathIsDeep (depth e) path
      → PathIsDeep 0 (search compare object e path)
  unfolding search
  search-PathIsDeep compare object null path h hp = hp
  search-PathIsDeep compare object (element l ld o rd r) path h hp =
      elim (Bool-cases (is_negative (compare object o))) [
        | inl e ↦ rw e (
            search-PathIsDeep compare object l (from_left ld o rd r ∷ path) h.2 (h.0, h.1, h.3, hp))
        | inr e ↦ rw e (
            search-PathIsDeep compare object r (from_right l ld o rd ∷ path) h.3
              (h.0, h.1, h.2, hp))
      ]
