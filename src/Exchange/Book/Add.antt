-- ===== src/Exchange/Book/Add.antt =====
-- `add_order` keeps a side well formed.
use velox_quant.Base.{
  ◌≡◌, ◌≢◌, sym, ◌∙◌, Bool, true, false, List, [], ◌∷◌, ◌++◌, Assoc, eqb_ℤ, eqb_ℤ→eq, Bool-cases,
  inl, inr, ltb_ℤ_trans, ltb_ℤ_flip, eqb_ℤ_sym,
}
use velox_quant.MarketData.Types.{Price}
use velox_quant.Exchange.Types.{Order, OrderId}
use velox_quant.Exchange.Book.Levels.{BookSide, before, add_order}
use velox_quant.Exchange.Book.Invariant.{IsResting, Absent, QueueOk, After, SideOk, NotIn}

Absent-snoc : (x id : OrderId) (q : List OrderId) → x ≢ id → Absent x q → Absent x (q ++ id ∷ [])
Absent-snoc x id [] ne a = ((λ e. ne (sym e)), tt)
Absent-snoc x id (y ∷ q) ne a = (a.0, Absent-snoc x id q ne a.1)

QueueOk-snoc :
    (os : Assoc Order) (bid : Bool) (p : Price) (id : OrderId) (q : List OrderId)
    → IsResting os bid p id
    → Absent id q
    → QueueOk os bid p q
    → QueueOk os bid p (q ++ id ∷ [])
QueueOk-snoc os bid p id [] r n h = (r, tt, tt)
QueueOk-snoc os bid p id (x ∷ q) r n (h, a, t) =
    (h, Absent-snoc x id q n.0 a, QueueOk-snoc os bid p id q r n.1 t)

snoc-ne : (id : OrderId) (q : List OrderId) → q ++ id ∷ [] ≢ []
snoc-ne id [] e = cc
snoc-ne id (x ∷ q) e = cc

before_trans :
    (bid : Bool) (p r s : Price)
    → before bid p r ≡ true
    → before bid r s ≡ true
    → before bid p s ≡ true
unfolding before
before_trans true p r s h k = ltb_ℤ_trans s r p k h
before_trans false p r s h k = ltb_ℤ_trans p r s h k

before_flip :
    (bid : Bool) (p r : Price) → eqb_ℤ p r ≡ false → before bid p r ≡ false → before bid r p ≡ true
unfolding before
before_flip true p r h k = ltb_ℤ_flip r p (eqb_ℤ_sym r p ∙ h) k
before_flip false p r h k = ltb_ℤ_flip p r h k

pub After-trans :
    (bid : Bool) (p r : Price) (l : BookSide)
    → before bid p r ≡ true
    → After bid r l
    → After bid p l
After-trans bid p r [] h a = a
After-trans bid p r ((s, q) ∷ l) h a = (before_trans bid p r s h a.0, After-trans bid p r l h a.1)

add-After :
    (bid : Bool) (r p : Price) (id : OrderId) (l : BookSide)
    → before bid r p ≡ true
    → After bid r l
    → After bid r (add_order bid p id l)
unfolding add_order
add-After bid r p id [] b a = (b, a)
add-After bid r p id ((s, q) ∷ rest) b a = elim (Bool-cases (eqb_ℤ p s)) [
  | inl e ↦ rw e a
  | inr e ↦ elim (Bool-cases (before bid p s)) [
    | inl k ↦ rw (e, k) (b, a)
    | inr k ↦ rw (e, k) (a.0, add-After bid r p id rest b a.1)
  ]
]

-- An order that no queue names goes to the end of its level, or opens one.
pub add-SideOk :
    (os : Assoc Order) (bid : Bool) (p : Price) (id : OrderId) (l : BookSide)
    → IsResting os bid p id
    → NotIn id l
    → SideOk os bid l
    → SideOk os bid (add_order bid p id l)
unfolding add_order
add-SideOk os bid p id [] r n h = ((λ e. cc), (r, tt, tt), tt, tt)
add-SideOk os bid p id ((s, q) ∷ rest) r n (ne, h, a, t) = elim (Bool-cases (eqb_ℤ p s)) [
  | inl e ↦
      let here : IsResting os bid s id = rw (sym (eqb_ℤ→eq p s e)) r in
      rw e (snoc-ne id q, QueueOk-snoc os bid s id q here n.0 h, a, t)
  | inr e ↦ elim (Bool-cases (before bid p s)) [
    | inl k ↦ rw (e, k) ((λ e. cc), (r, tt, tt), (k, After-trans bid p s rest k a), (ne, h, a, t))
    | inr k ↦
        rw (e, k)
          (
            ne,
            h,
            add-After bid s p id rest (before_flip bid p s e k) a,
            add-SideOk os bid p id rest r n.1 t,
          )
  ]
]
