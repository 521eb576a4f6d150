-- ===== src/Discrepancies/Recompare/Rows.antt =====
-- Lists of discrepancies under the statements of a re-comparison: DELETE, UPDATE and INSERT.
use docket_pub.Prelude.{
  ℕ, ◌≡◌, ◌≢◌, sym, ◌∙◌, ap, Bool, true, List, [], ◌∷◌, ◌++◌, ◌==◌, keep, map, All, In, inl, inr,
  Bool-cases, ==_iff,
}
use docket_pub.Discrepancies.Types.{Discrepancy, update_row}

pub All-kept :
    (P : Discrepancy → Type 0) (p : Discrepancy → Bool) (ds : List Discrepancy)
    → All P ds
    → All P (keep p ds)
All-kept P p [] h = tt
All-kept P p (d ∷ ds) h = elim (Bool-cases (p d)) [
  | inl e ↦ rw e (h.0, All-kept P p ds h.1)
  | inr e ↦ rw e (All-kept P p ds h.1)
]

pub All-mapped :
    (P Q : Discrepancy → Type 0) (f : Discrepancy → Discrepancy) (ds : List Discrepancy)
    → ((d : Discrepancy) → P d → Q (f d))
    → All P ds
    → All Q (map f ds)
All-mapped P Q f [] g h = tt
All-mapped P Q f (d ∷ ds) g h = (g d h.0, All-mapped P Q f ds g h.1)

pub In-mapped :
    (f : Discrepancy → Discrepancy) (d : Discrepancy) (ds : List Discrepancy)
    → f d ≡ d
    → In d ds
    → In d (map f ds)
In-mapped f d [] e m = m
In-mapped f d (x ∷ ds) e (inl q) = inl (sym e ∙ ap f q)
In-mapped f d (x ∷ ds) e (inr m) = inr (In-mapped f d ds e m)

pub In-kept :
    (p : Discrepancy → Bool) (d : Discrepancy) (ds : List Discrepancy)
    → p d ≡ true
    → In d ds
    → In d (keep p ds)
In-kept p d [] e m = m
In-kept p d (x ∷ ds) e (inl q) = let h : p x ≡ true = ap p (sym q) ∙ e in rw h (inl q)
In-kept p d (x ∷ ds) e (inr m) = elim (Bool-cases (p x)) [
  | inl h ↦ rw h (inr (In-kept p d ds e m))
  | inr h ↦ rw h (In-kept p d ds e m)
]

pub In-snoc : (d e : Discrepancy) (ds : List Discrepancy) → In d ds → In d (ds ++ e ∷ [])
In-snoc d e [] m = absurd m
In-snoc d e (x ∷ ds) (inl q) = inl q
In-snoc d e (x ∷ ds) (inr m) = inr (In-snoc d e ds m)

pub In-updated :
    (k : ℕ) (f : Discrepancy → Discrepancy) (d : Discrepancy) (ds : List Discrepancy)
    → d.id ≢ k
    → In d ds
    → In d (update_row k f ds)
unfolding update_row
In-updated k f d [] ne m = m
In-updated k f d (x ∷ ds) ne (inl q) = elim (Bool-cases (x.id == k)) [
  | inl e ↦ absurd (ne (ap (λ (y : Discrepancy). y.id) q ∙ (==_iff x.id k).0 e))
  | inr e ↦ rw e (inl q)
]
In-updated k f d (x ∷ ds) ne (inr m) = elim (Bool-cases (x.id == k)) [
  | inl e ↦ rw e (inr (In-updated k f d ds ne m))
  | inr e ↦ rw e (inr (In-updated k f d ds ne m))
]
