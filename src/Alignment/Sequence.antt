-- ===== src/Alignment/Sequence.antt =====
-- ai/transcripts/aligner.py: sequence_candidates.
use docket_pub.Prelude.{
  ℕ, zero, suc, Option, none, some, List, [], ◌∷◌, ◌++◌, map, length, leb, ltb, contains,
  if◌then◌else◌, get_elem?,
}
use docket_pub.Alignment.Types.{Event}

-- bisect_left on a sorted list.
unfoldable pub bisect_left : List ℕ → ℕ → ℕ
bisect_left [] v = 0
bisect_left (t ∷ ts) v = if ltb t v then suc (bisect_left ts v) else 0

-- tails, idx_at and prev; none in prev stands for -1.
pub record Piles : Type 0 where
  pub tails : List ℕ
  pub idx_at : List ℕ
  pub prev : List (Option ℕ)

-- `xs[k] = v`, or an append where `k == len(xs)`.
abbrev pub put_at : List ℕ → ℕ → ℕ → List ℕ
put_at [] k v = v ∷ []
put_at (x ∷ xs) zero v = v ∷ xs
put_at (x ∷ xs) (suc k) v = x ∷ put_at xs k v

-- `idx_at[k - 1] if k else -1`
abbrev pub before : List ℕ → ℕ → Option ℕ
before idx zero = none
before idx (suc k) = get_elem? idx k

-- The body of the loop.
unfoldable pub deal : (i v : ℕ) → Piles → Piles
deal i v p =
    let k = bisect_left p.tails v in
    let idx = put_at p.idx_at k i in
    record { tails = put_at p.tails k v; idx_at = idx; prev = p.prev ++ before idx k ∷ [] }

unfoldable pub deal_all : (i : ℕ) → List ℕ → Piles → Piles
deal_all i [] p = p
deal_all i (v ∷ vs) p = deal_all (suc i) vs (deal i v p)

abbrev joined : Option (Option ℕ) → Option ℕ
joined none = none
joined (some o) = o

-- The walk along prev, in at most `rounds` rounds.
unfoldable pub walk : (rounds : ℕ) → List (Option ℕ) → Option ℕ → List ℕ
walk zero prev o = []
walk (suc n) prev none = []
walk (suc n) prev (some i) = i ∷ walk n prev (joined (get_elem? prev i))

abbrev last_of : List ℕ → Option ℕ
last_of [] = none
last_of (x ∷ []) = some x
last_of (x ∷ y ∷ ys) = last_of (y ∷ ys)

abbrev no_piles : Piles
no_piles = record { tails = []; idx_at = []; prev = [] }

-- The indices on the longest increasing subsequence, from the last to the first.
unfoldable pub kept_indices : List ℕ → List ℕ
kept_indices vs = let p = deal_all 0 vs no_piles in walk (length vs) p.prev (last_of p.idx_at)

-- sorted by the transcript's seq, stable
unfoldable pub insert : Event × Event → List (Event × Event) → List (Event × Event)
insert p [] = p ∷ []
insert p (q ∷ qs) = let rest = insert p qs in if leb p.0.seq q.0.seq then p ∷ q ∷ qs else q ∷ rest

unfoldable pub sort : List (Event × Event) → List (Event × Event)
sort [] = []
sort (p ∷ ps) = insert p (sort ps)

-- `[p for i, p in enumerate(ordered) if i not in keep]`
unfoldable pub not_at : (i : ℕ) → List ℕ → List (Event × Event) → List (Event × Event)
not_at i ks [] = []
not_at i ks (p ∷ ps) = let rest = not_at (suc i) ks ps in if contains i ks then rest else p ∷ rest

unfoldable pub sequence_candidates : List (Event × Event) → List (Event × Event)
sequence_candidates pairs =
    let ordered = sort pairs in not_at 0 (kept_indices (map (λ p. p.1.seq) ordered)) ordered
