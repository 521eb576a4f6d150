-- ===== src/Alignment/Align/Accounted.antt =====
-- ai/transcripts/aligner.py: what becomes of an event in align.
use docket_pub.Prelude.{
  ℕ, ◌+◌, ◌≡◌, refl, ap, Bool, true, false, ◌⊎◌, inl, inr, some, List, [], ◌∷◌, ◌++◌, Text, map,
  Bool-cases, In, In-append_left, In-append_right, In-of_append, In-map,
}
use docket_pub.Alignment.Types.{Event, VoteRow, Candidate, consent_candidate, omitted, added}
use docket_pub.Alignment.Consent.{effective_consent_block}
use docket_pub.Alignment.Grouping.{group_key, is_settled_amendment, group_transcript, touches}
use docket_pub.Alignment.Grouping.Holds.{
  HasFirst, HasSecond, group_transcript_holds, group_minutes_holds, group_minutes_keeps_transcript,
}
use docket_pub.Alignment.Pairing.Covers.{PairedFirst, PairedSecond}
use docket_pub.Alignment.Align.Found.{
  FoundFirst, FoundSecond, compare_group-FoundFirst, compare_group-FoundSecond, group_of-FoundFirst,
  group_of-FoundSecond, compare_groups_find, touches_item, amendment_item,
}
use docket_pub.Alignment.Align.{
  Compared, difference, is_minuted, omission_of, addition_of, pulled_on_video, pulled_in_minutes,
  number_from, compare_timelines, ordered_candidates, align,
}

-- A numbered copy of a candidate is listed.
abbrev Numbered : Candidate → List Candidate → Type 0
Numbered c cs = (i : ℕ) × In (record c { candidate_id = i }) cs

number_from-Numbered :
    (k : ℕ) (c : Candidate) (cs : List Candidate) → In c cs → Numbered c (number_from k cs)
unfolding number_from
number_from-Numbered k c [] m = absurd m
number_from-Numbered k c (d ∷ cs) (inl q) =
    (k, inl (ap (λ (x : Candidate). record x { candidate_id = k }) q))
number_from-Numbered k c (d ∷ cs) (inr m) =
    let (i, n) = number_from-Numbered (k + 1) c cs m in (i, inr n)

-- A candidate of a kind about an event of the transcript, or of the minutes, is listed.
abbrev pub OmissionListed : Event → List Candidate → Type 0
OmissionListed e cs = (c : Candidate) × In c cs × (c.kind ≡ omitted) × (c.transcript_event ≡ some e)

abbrev pub AdditionListed : Event → List Candidate → Type 0
AdditionListed e cs = (c : Candidate) × In c cs × (c.kind ≡ added) × (c.minutes_event ≡ some e)

-- A consent candidate about an item that the event names is listed.
abbrev pub ItemListed : Event → List Candidate → Type 0
ItemListed e cs =
    (n : ℕ) × In n (e.detail.items ++ e.item_refs)
    × (c : Candidate) × In c cs
    × (c.kind ≡ consent_candidate)
    × (c.item_refs ≡ n ∷ [])

module _ (fold : ℕ → Text) (word : ℕ → Bool) (canonical : Text → Text) (ts ms : List Event)
    (consent : List ℕ) (votes : List VoteRow) where
  abbrev tb : List ℕ
  tb = effective_consent_block consent ts

  abbrev mb : List ℕ
  mb = effective_consent_block consent ms

  abbrev settled : List ℕ
  settled = difference mb tb ++ difference tb mb

  abbrev compared : Compared
  compared = compare_timelines fold word canonical tb mb ts ms

  -- The pairs of the two timelines that align compares.
  abbrev pub aligned_pairs : List (Event × Event)
  aligned_pairs = compared.pairs

  abbrev result : List Candidate
  result = align fold word canonical ts ms consent votes

  numbered :
      (c : Candidate)
      → In c (ordered_candidates fold word canonical ts ms consent votes)
      → Numbered c result
  unfolding align
  numbered c m = number_from-Numbered 1 c _ m

  omission_listed : (e : Event) → In (omission_of e) compared.omis → OmissionListed e result
  unfolding ordered_candidates omission_of
  omission_listed e m =
      let (i, n) = numbered (omission_of e) (
        In-append_right _ (map (pulled_on_video ts ms) (difference mb tb)) _ (
          In-append_right _ (map (pulled_in_minutes ts ms) (difference tb mb)) _
            (In-append_right _ compared.mism _ (In-append_left _ compared.omis _ m)))) in
      (_, n, refl, refl)

  addition_listed : (e : Event) → In (addition_of e) compared.adds → AdditionListed e result
  unfolding ordered_candidates addition_of
  addition_listed e m =
      let (i, n) = numbered (addition_of e) (
        In-append_right _ (map (pulled_on_video ts ms) (difference mb tb)) _ (
          In-append_right _ (map (pulled_in_minutes ts ms) (difference tb mb)) _ (
            In-append_right _ compared.mism _
              (In-append_right _ compared.omis _ (In-append_left _ compared.adds _ m))))) in
      (_, n, refl, refl)

  consent_listed :
      (e : Event) (n : ℕ)
      → In n settled
      → In n (e.detail.items ++ e.item_refs)
      → ItemListed e result
  unfolding ordered_candidates pulled_on_video pulled_in_minutes
  consent_listed e n m i = elim (In-of_append n (difference mb tb) _ m) [
    | inl h ↦
        let (k, r) = numbered (pulled_on_video ts ms n) (
          In-append_left _ (map (pulled_on_video ts ms) (difference mb tb)) _
            (In-map (pulled_on_video ts ms) n _ h)) in
        (n, i, _, r, refl, refl)
    | inr h ↦
        let (k, r) = numbered (pulled_in_minutes ts ms n) (
          In-append_right _ (map (pulled_on_video ts ms) (difference mb tb)) _ (
            In-append_left _ (map (pulled_in_minutes ts ms) (difference tb mb)) _
              (In-map (pulled_in_minutes ts ms) n _ h))) in
        (n, i, _, r, refl, refl)
  ]

  first_found :
      (e : Event)
      → In e ts
      → is_minuted e ≡ true
      → is_settled_amendment settled e ≡ false
      → touches (group_key fold e tb) settled ≡ false
      → FoundFirst e compared
  unfolding compare_timelines
  first_found e m mt n t =
      compare_groups_find fold word canonical settled (FoundFirst e) (HasFirst settled false e)
        (λ g c. compare_group-FoundFirst fold word canonical settled e g c)
        (λ g c h. group_of-FoundFirst fold word canonical settled e g c h mt) _ _
        (group_minutes_keeps_transcript fold settled mb false e ms _
          (rw t at (group_transcript_holds fold settled tb e ts [] m n)))

  second_found :
      (e : Event)
      → In e ms
      → is_minuted e ≡ true
      → is_settled_amendment settled e ≡ false
      → touches (group_key fold e mb) settled ≡ false
      → FoundSecond e compared
  unfolding compare_timelines
  second_found e m mt n t =
      compare_groups_find fold word canonical settled (FoundSecond e) (HasSecond settled false e)
        (λ g c. compare_group-FoundSecond fold word canonical settled e g c)
        (λ g c h. group_of-FoundSecond fold word canonical settled e g c h mt) _ _
        (rw t at
          (group_minutes_holds fold settled mb e ms (group_transcript fold settled tb ts []) m n))

  item_listed :
      (e : Event) (block : List ℕ)
      → (is_settled_amendment settled e ≡ true) ⊎ (touches (group_key fold e block) settled ≡ true)
      → ItemListed e result
  item_listed e block (inl h) =
      let (n, m, i) = amendment_item fold word canonical settled e h in consent_listed e n m i
  item_listed e block (inr h) =
      let (n, m, i) = touches_item fold word canonical settled e block h in
      consent_listed e n m (In-append_right n e.detail.items _ i)

  -- align leaves no event of a minuted type without an account: each one of the transcript is paired
  -- with an event of the minutes, or listed as an omission, or a consent candidate is listed about an
  -- item that it names; and each one of the minutes is paired, or listed as an addition, or a consent
  -- candidate is listed about an item that it names.
  pub every_event_accounted :
      ((e : Event)
        → In e ts
        → is_minuted e ≡ true
        → PairedFirst e aligned_pairs ⊎ (OmissionListed e result ⊎ ItemListed e result))
      × ((e : Event)
          → In e ms
          → is_minuted e ≡ true
          → PairedSecond e aligned_pairs ⊎ (AdditionListed e result ⊎ ItemListed e result))
  every_event_accounted = (
    λ e m mt. elim (Bool-cases (is_settled_amendment settled e)) [
      | inl h ↦ inr (inr (item_listed e tb (inl h)))
      | inr n ↦ elim (Bool-cases (touches (group_key fold e tb) settled)) [
        | inl h ↦ inr (inr (item_listed e tb (inr h)))
        | inr t ↦ elim (first_found e m mt n t) [
          | inl p ↦ inl p
          | inr o ↦ inr (inl (omission_listed e o))
        ]
      ]
    ],
    λ e m mt. elim (Bool-cases (is_settled_amendment settled e)) [
      | inl h ↦ inr (inr (item_listed e mb (inl h)))
      | inr n ↦ elim (Bool-cases (touches (group_key fold e mb) settled)) [
        | inl h ↦ inr (inr (item_listed e mb (inr h)))
        | inr t ↦ elim (second_found e m mt n t) [
          | inl p ↦ inl p
          | inr o ↦ inr (inl (addition_listed e o))
        ]
      ]
    ],
  )
