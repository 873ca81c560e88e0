-- ===== src/Shadow/Subtree/Rows.antt =====
-- Rows and rowids of a table, and the Boolean facts that the subtree proofs share.
use matryca_plumber.Prelude.{
  ℕ, ◌≡◌, refl, sym, ◌∙◌, subst, inl, inr, Bool, true, false, ◌&&◌, ◌||◌, List, [], ◌∷◌, ◌++◌, All,
  All-map, ◌==◌, nat_eq, contains, ==_refl, ==_iff, keep, Bool-cases, arith,
}
use matryca_plumber.Shadow.Database.{BlockRow}
use matryca_plumber.Shadow.Subtree.Walk.{ids, is_child}

pub or-true : (b : Bool) → (b || true) ≡ true
or-true true = refl
or-true false = refl

pub clash : true ≡ false → ⊥
clash h = cc h

pub and-left : (a b : Bool) → (a && b) ≡ true → a ≡ true
and-left a b h = ground arith

pub or-right : (a b : Bool) → (a || b) ≡ false → b ≡ false
or-right a b h = ground arith

pub All-both {ℓ κ μ ν} :
    {A : Type ℓ} (P : A → Type κ) (Q : A → Type μ) (R : A → Type ν) (xs : List A)
    → ((x : A) → P x → Q x → R x)
    → All P xs
    → All Q xs
    → All R xs
All-both P Q R [] f h k = tt
All-both P Q R (x ∷ xs) f h k = (f x h.0 k.0, All-both P Q R xs f h.1 k.1)

pub ids-append :
    (xs ys : List BlockRow) (c : ℕ)
    → contains (ids (xs ++ ys)) c ≡ (contains (ids xs) c || contains (ids ys) c)
ids-append [] ys c = refl
ids-append (x ∷ xs) ys c = ground (arith, ids-append xs ys c)

pub keep-true :
    (p : BlockRow → Bool) (b : BlockRow) (bs : List BlockRow)
    → p b ≡ true
    → keep p (b ∷ bs) ≡ b ∷ keep p bs
keep-true p b bs h = ground arith

pub keep-false :
    (p : BlockRow → Bool) (b : BlockRow) (bs : List BlockRow)
    → p b ≡ false
    → keep p (b ∷ bs) ≡ keep p bs
keep-false p b bs h = ground arith

pub keep-pass : (p : BlockRow → Bool) (bs : List BlockRow) → All (λ b. p b ≡ true) (keep p bs)
keep-pass p [] = tt
keep-pass p (b ∷ bs) = elim (Bool-cases (p b)) [
  | inl passes ↦
      subst (All (λ d. p d ≡ true)) (sym (keep-true p b bs passes)) (passes, keep-pass p bs)
  | inr fails ↦ subst (All (λ d. p d ≡ true)) (sym (keep-false p b bs fails)) (keep-pass p bs)
]

-- Each row of a table is among its rowids.
pub own_rowid : (bs : List BlockRow) → All (λ b. contains (ids bs) b.rowid ≡ true) bs
own_rowid [] = tt
own_rowid (b ∷ bs) = (
  ground (arith, ==_refl b.rowid),
  All-map _ _ bs (λ d (h : contains (ids bs) d.rowid ≡ true). ground arith) (own_rowid bs),
)

pub child-page : (page r : ℕ) (b : BlockRow) → is_child page r b ≡ true → b.page_id ≡ page
child-page page r b h = ground (arith, ==_iff b.page_id page)

contains-keep_cons :
    (p : BlockRow → Bool) (b : BlockRow) (bs : List BlockRow) (c : ℕ)
    → contains (ids (keep p (b ∷ bs))) c ≡ ((p b && b.rowid == c) || contains (ids (keep p bs)) c)
contains-keep_cons p b bs c = ground arith

weaker :
    (p q same rest other : Bool)
    → (same ≡ true → p ≡ true → q ≡ true)
    → (rest ≡ true → other ≡ true)
    → ((p && same) || rest) ≡ true
    → ((q && same) || other) ≡ true
weaker true q true rest other f g h = ground (arith, f refl refl)
weaker true q false rest other f g h = ground (arith, g)
weaker false q same rest other f g h = ground (arith, g)

-- A kept row passes every test that follows, at its rowid, from the one that kept it.
pub keep-weaker :
    (p q : BlockRow → Bool) (bs : List BlockRow) (c : ℕ)
    → ((b : BlockRow) → b.rowid ≡ c → p b ≡ true → q b ≡ true)
    → contains (ids (keep p bs)) c ≡ true
    → contains (ids (keep q bs)) c ≡ true
keep-weaker p q [] c f h = h
keep-weaker p q (b ∷ bs) c f h =
    let passes : b.rowid == c ≡ true → p b ≡ true → q b ≡ true =
      λ same. f b ((==_iff b.rowid c).0 same) in
    let rest : contains (ids (keep p bs)) c ≡ true → contains (ids (keep q bs)) c ≡ true =
      keep-weaker p q bs c f in
    contains-keep_cons q b bs c
    ∙ weaker (p b) (q b) (b.rowid == c) _ _ passes rest (sym (contains-keep_cons p b bs c) ∙ h)
