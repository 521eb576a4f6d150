-- ===== src/Speakers/RollCall/Answers.antt =====
-- ai/transcripts/speakers.py: what a pair of find_roll_call_pairs stands for.
use docket_pub.Prelude.{
  ℕ, zero, suc, ◌+◌, ◌≤◌, ◌≡◌, refl, sym, ap, ◌∙◌, Bool, true, false, inl, inr, List, [], ◌∷◌, ◌++◌,
  Text, ltb, length, take, arith, Bool-cases, All, All-map, All-append,
}
use docket_pub.Speakers.Types.{RosterMember}
use docket_pub.Speakers.RollCall.{
  Line, speech, same_label, is_nobody, RollCallPair, tokens, mentioned_members, is_short_response,
  response_to, called_in, pairs_from, find_roll_call_pairs,
}

not_later : (a b : ℕ) → ltb b a ≡ false → a ≤ b
not_later a b h = ground (arith, h)

-- What stands early in a list stands within what is taken of it, and so before the rest.
taken :
    (n : ℕ) (ss between : List Line) (r : Line) (after : List Line)
    → take (suc n) ss ≡ between ++ (r ∷ after)
    → (rest : List Line) × (ss ≡ between ++ (r ∷ rest)) × (length between ≤ n)
taken n [] [] r after q = absurd (cc q)
taken n [] (b ∷ bs) r after q = absurd (cc q)
taken n (x ∷ ss) [] r after q =
    let e : x ≡ r = cc q in (ss, ap (λ (y : Line). y ∷ ss) e, omega arith)
taken zero (x ∷ ss) (b ∷ []) r after q = absurd (cc q)
taken zero (x ∷ ss) (b ∷ c ∷ bs) r after q = absurd (cc q)
taken (suc n) (x ∷ ss) (b ∷ bs) r after q =
    let e : x ≡ b = cc q in
    let (rest, f, l) = taken n ss bs r after (cc q) in (rest, cc (e, f), omega (arith, l))

module _ (fold : ℕ → Text) (similar : Text → Text → Bool) (max_gap : ℕ)
    (roster : List RosterMember) where
  -- A line of the reader that names nobody.
  abbrev pub IsPause : Line → Line → Type 0
  IsPause s l =
      (same_label l.cluster_label s.cluster_label ≡ true)
      × (is_nobody (mentioned_members fold similar max_gap roster l.text) ≡ true)

  -- The line `r` answers the name that is read in `s`.
  abbrev pub Answers : Line → Line → RollCallPair → Type 0
  Answers s r p =
      (same_label r.cluster_label s.cluster_label ≡ false)
      × (is_short_response fold similar max_gap roster r.text ≡ true)
      × (r.start_s ≤ s.end_s + max_gap)
      × (p.name_seq ≡ s.seq)
      × (p.response_seq ≡ r.seq)
      × (p.response_cluster ≡ r.cluster_label)

  -- Behind `s`, only pauses of the reader stand before the answer.
  abbrev AnswersIn : Line → RosterMember → List Line → RollCallPair → Type 0
  AnswersIn s m ns p =
      (between : List Line) × (r : Line) × (after : List Line) × (ns ≡ between ++ (r ∷ after))
      × All (IsPause s) between
      × Answers s r p
      × (p.member ≡ m)

  behind_pause :
      (s : Line) (m : RosterMember) (n : Line) (ns : List Line) (p : RollCallPair)
      → IsPause s n
      → AnswersIn s m ns p
      → AnswersIn s m (n ∷ ns) p
  behind_pause s m n ns p k (between, r, after, q, t, h, e) =
      (n ∷ between, r, after, ap (λ (x : List Line). n ∷ x) q, (k, t), h, e)

  response_to-AnswersIn :
      (s : Line) (m : RosterMember) (ns : List Line)
      → All (AnswersIn s m ns) (response_to fold similar max_gap roster s m ns)
  unfolding response_to
  response_to-AnswersIn s m [] = tt
  response_to-AnswersIn s m (n ∷ ns) = elim (Bool-cases (ltb (s.end_s + max_gap) n.start_s)) [
    | inl e ↦ rw (e, response_to) tt
    | inr e ↦ elim (Bool-cases (same_label n.cluster_label s.cluster_label)) [
      | inl l ↦
          elim (Bool-cases (is_nobody (mentioned_members fold similar max_gap roster n.text))) [
            | inl k ↦
                rw (e, l, k, response_to)
                  (All-map (AnswersIn s m ns) (AnswersIn s m (n ∷ ns))
                    (response_to fold similar max_gap roster s m ns)
                    (λ p h. behind_pause s m n ns p (l, k) h) (response_to-AnswersIn s m ns))
            | inr k ↦ rw (e, l, k, response_to) tt
          ]
      | inr l ↦ elim (Bool-cases (is_short_response fold similar max_gap roster n.text)) [
        | inl k ↦
            rw (e, l, k, response_to)
              (
                (
                  [],
                  n,
                  ns,
                  refl,
                  tt,
                  (l, k, not_later n.start_s (s.end_s + max_gap) e, refl, refl, refl),
                  refl,
                ),
                tt,
              )
        | inr k ↦ rw (e, l, k, response_to) tt
      ]
    ]
  ]

  -- Where in a list of lines a pair stands.
  abbrev pub StandsAt : List Line → RollCallPair → Type 0
  StandsAt ls p =
      (before : List Line) × (s : Line) × (between : List Line) × (r : Line) × (after : List Line)
      × (ls ≡ before ++ (s ∷ (between ++ (r ∷ after))))
      × (mentioned_members fold similar max_gap roster s.text ≡ p.member ∷ [])
      × (length (tokens fold similar max_gap roster s.text) ≤ 6)
      × (length between ≤ 2)
      × All (IsPause s) between
      × Answers s r p

  called_at :
      (s : Line) (ss : List Line) (m : RosterMember) (p : RollCallPair)
      → mentioned_members fold similar max_gap roster s.text ≡ m ∷ []
      → length (tokens fold similar max_gap roster s.text) ≤ 6
      → AnswersIn s m (take 3 ss) p
      → StandsAt (s ∷ ss) p
  called_at s ss m p e l (between, r, after, q, t, h, k) =
      let (rest, f, b) = taken 2 ss between r after q in
      (
        [],
        s,
        between,
        r,
        rest,
        ap (λ (x : List Line). s ∷ x) f,
        e ∙ ap (λ (x : RosterMember). x ∷ []) (sym k),
        l,
        b,
        t,
        h,
      )

  called-StandsAt :
      (s : Line) (ss : List Line) (ms : List RosterMember)
      → mentioned_members fold similar max_gap roster s.text ≡ ms
      → All (StandsAt (s ∷ ss)) (called_in fold similar max_gap roster s ms ss)
  called-StandsAt s ss [] e = tt
  called-StandsAt s ss (m ∷ n ∷ ms) e = tt
  called-StandsAt s ss (m ∷ []) e =
      elim (Bool-cases (ltb 6 (length (tokens fold similar max_gap roster s.text)))) [
        | inl h ↦ rw h tt
        | inr h ↦ rw h (
            All-map (AnswersIn s m (take 3 ss)) (StandsAt (s ∷ ss)) _
              (λ p a. called_at s ss m p e (not_later _ 6 h) a)
              (response_to-AnswersIn s m (take 3 ss)))
      ]

  later-StandsAt :
      (s : Line) (ss : List Line) (p : RollCallPair) → StandsAt ss p → StandsAt (s ∷ ss) p
  later-StandsAt s ss p (before, t, between, r, after, q, a, b, c, d, h) =
      (s ∷ before, t, between, r, after, ap (λ (x : List Line). s ∷ x) q, a, b, c, d, h)

  pairs_from-StandsAt :
      (ls : List Line) → All (StandsAt ls) (pairs_from fold similar max_gap roster ls)
  unfolding pairs_from
  pairs_from-StandsAt [] = tt
  pairs_from-StandsAt (s ∷ ss) = All-append (StandsAt (s ∷ ss)) _ _ (called-StandsAt s ss _ refl) (
      All-map (StandsAt ss) (StandsAt (s ∷ ss)) _ (λ p h. later-StandsAt s ss p h)
        (pairs_from-StandsAt ss))

  -- Each pair of find_roll_call_pairs stands in the speech: a line of at most six words that names the
  -- pair's member and nobody else, then at most two lines of the same cluster that name nobody, then a
  -- short response from another cluster, which begins at most `max_gap` after the end of the name.
  pub find_roll_call_pairs-StandsAt :
      (segments : List Line)
      → All (StandsAt (speech segments)) (find_roll_call_pairs fold similar max_gap roster segments)
  unfolding find_roll_call_pairs
  find_roll_call_pairs-StandsAt segments = pairs_from-StandsAt (speech segments)
