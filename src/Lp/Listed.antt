-- ===== src/Lp/Listed.antt =====
-- Lists of events without repetition, and events that are in none of them.
use charades.Prelude.{
  ℕ, suc, ◌<◌, ◌≡◌, ◌≢◌, sym, subst, Bool-cases, Ptr, ◌⊎◌, inl, inr, List, [], ◌∷◌, length, arith,
  ◌==◌, ◌++◌, at,
}
use charades.Event.{Events}
use charades.Lp.Stored.{IsChain}

-- The event is not in the list.
abbrev pub IsNew : Ptr → List Ptr → Type 0
IsNew e [] = Unit {0}
IsNew e (k ∷ ks) = (k ≢ e) × IsNew e ks

abbrev pub AreDistinct : List Ptr → Type 0
AreDistinct [] = Unit {0}
AreDistinct (k ∷ ks) = IsNew k ks × AreDistinct ks

abbrev pub AllNew : List Ptr → List Ptr → Type 0
AllNew ks [] = Unit {0}
AllNew ks (y ∷ ys) = IsNew y ks × AllNew ks ys

pub IsNew-left : (e : Ptr) (ks ys : List Ptr) → IsNew e (ks ++ ys) → IsNew e ks
IsNew-left e [] ys n = tt
IsNew-left e (k ∷ ks) ys (n, ns) = (n, IsNew-left e ks ys ns)

pub IsNew-right : (e : Ptr) (ks ys : List Ptr) → IsNew e (ks ++ ys) → IsNew e ys
IsNew-right e [] ys n = n
IsNew-right e (k ∷ ks) ys (n, ns) = IsNew-right e ks ys ns

pub distinct-left : (ks ys : List Ptr) → AreDistinct (ks ++ ys) → AreDistinct ks
distinct-left [] ys d = tt
distinct-left (k ∷ ks) ys (n, d) = (IsNew-left k ks ys n, distinct-left ks ys d)

pub distinct-right : (ks ys : List Ptr) → AreDistinct (ks ++ ys) → AreDistinct ys
distinct-right [] ys d = d
distinct-right (k ∷ ks) ys (n, d) = distinct-right ks ys d

pub IsNew-cases : (e : Ptr) (ks : List Ptr) → IsNew e ks ⊎ (¬ IsNew e ks)
IsNew-cases e [] = inl tt
IsNew-cases e (k ∷ ks) = elim (Bool-cases (k == e)) [
  | inl t ↦ inr (λ (n, ns). n (ground arith))
  | inr t ↦ elim (IsNew-cases e ks) [
    | inl n ↦ inl (ground arith, n)
    | inr n ↦ inr (λ (m, ms). n ms)
  ]
]

AllNew-cons : (k : Ptr) (ks ys : List Ptr) → IsNew k ys → AllNew ks ys → AllNew (k ∷ ks) ys
AllNew-cons k ks [] n a = tt
AllNew-cons k ks (y ∷ ys) (n, ns) (a, as') = ((λ e. n (sym e), a), AllNew-cons k ks ys ns as')

pub AllNew-nil : (ys : List Ptr) → AllNew [] ys
AllNew-nil [] = tt
AllNew-nil (y ∷ ys) = (tt, AllNew-nil ys)

pub AllNew-distinct : (ks ys : List Ptr) → AreDistinct (ks ++ ys) → AllNew ks ys
AllNew-distinct [] ys d = AllNew-nil ys
AllNew-distinct (k ∷ ks) ys (n, d) =
    AllNew-cons k ks ys (IsNew-right k ks ys n) (AllNew-distinct ks ys d)

pub AllNew-left : (ks xs ys : List Ptr) → AllNew ks (xs ++ ys) → AllNew ks xs
AllNew-left ks [] ys a = tt
AllNew-left ks (x ∷ xs) ys (a, as') = (a, AllNew-left ks xs ys as')

pub AllNew-right : (ks xs ys : List Ptr) → AllNew ks (xs ++ ys) → AllNew ks ys
AllNew-right ks [] ys a = a
AllNew-right ks (x ∷ xs) ys (a, as') = AllNew-right ks xs ys as'

pub IsNew-at : (e : Ptr) (xs : List Ptr) → ((i : ℕ) → i < length xs → at xs i ≢ e) → IsNew e xs
unfolding at
IsNew-at e [] h = tt
IsNew-at e (x ∷ xs) h = (h 0 (omega arith), IsNew-at e xs (λ i k. h (suc i) (omega arith)))

pub IsChain-new :
    (m m' : Events) (ks : List Ptr)
    → ((x : Ptr) → IsNew x ks → m'.cause_next x ≡ m.cause_next x)
    → (x : Ptr) (ys : List Ptr) → AllNew ks ys
    → IsChain m x ys
    → IsChain m' x ys
IsChain-new m m' ks e x [] a h = h
IsChain-new m m' ks e x (y ∷ ys) (n, ns) (h, ne, hs) = (
  h,
  ne,
  subst (λ z. IsChain m' z ys) (sym (e y n)) (IsChain-new m m' ks e (m.cause_next y) ys ns hs),
)
