-- ===== src/Transcripts/Claim/Backoff.antt =====
-- ai/transcripts/pipeline.py: the attempt cap and the 24-hour backoff of CLAIM_SQL, over what the
-- workers do to the table in between: claim_next and claim_meeting, the ends of stages,
-- mark_low_speech, reset_for_versions, and the updates of sweep_minutes_changes, which lift the
-- backoff.
use docket_pub.Prelude.{
  ℕ, ◌+◌, ◌≤◌, ◌≡◌, ◌≢◌, refl, Bool, false, Option, none, some, List, [], ◌∷◌, arith, ◌==◌, All,
  All-In, inl, inr, Bool-cases, Option-cases, ap, sym, ◌∙◌, subst, keep, ==_iff,
}
use docket_pub.Transcripts.Types.{Transcript, Meeting, Unfit, StageEnd, returned, raised, held}
use docket_pub.Transcripts.Claim.{
  day, stamp, update, open_to, open_in, claim, claim_next, claim_meeting, is_due, first,
}
use docket_pub.Transcripts.Claim.Choice.{Chosen, claim_next-Chosen}
use docket_pub.Transcripts.Marks.{
  mark_low_speech, advance, mark_needs_review, mark_rate_limited, mark_transient,
}
use docket_pub.Transcripts.Process.{settle}
use docket_pub.Transcripts.Run.{reset_events, reset_compare, reset_for_versions}
use docket_pub.Transcripts.Sweep.{flag}
use docket_pub.Transcripts.Claim.Steps.{
  Work, claims, runs_meeting, settles, quiets, resets, flags, Works, idle, next, SparesIn, Spares,
}

-- Every row with this id was last attempted at `start` or later.
abbrev Recent : ℕ → Option ℕ → Type 0
Recent start none = ⊥
Recent start (some last) = start ≤ last

abbrev pub Held : (start k : ℕ) → List Transcript → Type 0
Held start k = All (λ t. t.id ≡ k → Recent start t.last_attempted_at)

pub settle_id : (now : ℕ) (end : StageEnd) (t : Transcript) → (settle now end t).id ≡ t.id
unfolding settle advance mark_needs_review mark_rate_limited mark_transient
settle_id now (returned out) t = refl
settle_id now (raised (held r d)) t = refl
settle_id now (raised _) t = refl

settle_last :
    (now : ℕ) (end : StageEnd) (t : Transcript)
    → (settle now end t).last_attempted_at ≡ t.last_attempted_at
unfolding settle advance mark_needs_review mark_rate_limited mark_transient
settle_last now (returned out) t = refl
settle_last now (raised (held r d)) t = refl
settle_last now (raised _) t = refl

reset_id :
    (a b : Bool) (t : Transcript)
    → ((reset_compare b (reset_events a t)).id ≡ t.id)
      × ((reset_compare b (reset_events a t)).last_attempted_at ≡ t.last_attempted_at)
unfolding reset_events reset_compare
reset_id a b t = ground arith

module _ (start k : ℕ) where
  -- An update that keeps the id, and the time of the attempt or sets a later one.
  abbrev Keeps : (Transcript → Transcript) → Type 0
  Keeps f =
      (t : Transcript)
      → ((f t).id ≡ t.id)
        × (Recent start t.last_attempted_at → Recent start (f t).last_attempted_at)

  update-Held :
      (j : ℕ) (f : Transcript → Transcript) (ts : List Transcript)
      → Keeps f
      → Held start k ts
      → Held start k (update j f ts)
  unfolding update
  update-Held j f [] keeps h = tt
  update-Held j f (t ∷ ts) keeps h = elim (Bool-cases (t.id == j)) [
    | inl e ↦ rw e ((λ q. (keeps t).1 (h.0 (sym (keeps t).0 ∙ q))), update-Held j f ts keeps h.1)
    | inr e ↦ rw e (h.0, update-Held j f ts keeps h.1)
  ]

  other-Held :
      (j : ℕ) (f : Transcript → Transcript) (ts : List Transcript)
      → ((t : Transcript) → (f t).id ≡ t.id)
      → j ≢ k
      → Held start k ts
      → Held start k (update j f ts)
  unfolding update
  other-Held j f [] same ne h = tt
  other-Held j f (t ∷ ts) same ne h = elim (Bool-cases (t.id == j)) [
    | inl e ↦ rw e (
      (λ q. absurd (ne (sym ((==_iff t.id j).0 e) ∙ (sym (same t) ∙ q)))),
      other-Held j f ts same ne h.1,
    )
    | inr e ↦ rw e (h.0, other-Held j f ts same ne h.1)
  ]

  flag_id : (now : ℕ) (t : Transcript) → (flag now t).id ≡ t.id
  unfolding flag
  flag_id now t = refl

  stamp-Keeps : (now : ℕ) → start ≤ now → Keeps (stamp now)
  unfolding stamp
  stamp-Keeps now h t = (refl, λ _. h)

  settle-Keeps : (now : ℕ) (end : StageEnd) → Keeps (settle now end)
  settle-Keeps now end t = (settle_id now end t, λ h. rw (settle_last now end t) h)

  low_speech-Keeps : (now : ℕ) (u : Unfit) → Keeps (mark_low_speech now u)
  unfolding mark_low_speech
  low_speech-Keeps now u t = (refl, λ h. h)

  module _ (meetings : ℕ → Meeting) where
    claim-Held :
        (locked : ℕ → Bool) (now : ℕ) (o : Option Transcript) (ts : List Transcript)
        → start ≤ now
        → Held start k ts
        → Held start k (claim meetings locked now o ts).1
    claim-Held locked now none ts le h = h
    claim-Held locked now (some t) ts le h = update-Held t.id (stamp now) ts (stamp-Keeps now le) h

    resets-Held :
        (old_events old_rows : ℕ → Bool) (ts : List Transcript)
        → Held start k ts
        → Held start k (reset_for_versions old_events old_rows ts)
    unfolding reset_for_versions
    resets-Held old_events old_rows [] h = tt
    resets-Held old_events old_rows (t ∷ ts) h =
        let old = reset_events (old_events t.meeting_id) t in
        let (same, last) = reset_id (old_events t.meeting_id) (old_rows old.meeting_id) t in
        ((λ q. rw last (h.0 (sym same ∙ q))), resets-Held old_events old_rows ts h.1)

    Work-Held :
        {ts us : List Transcript} (w : Work meetings start ts us)
        → SparesIn k w
        → Held start k ts
        → Held start k us
    unfolding claim_next claim_meeting
    Work-Held (claims {ts = ts} locked now le) q h =
        claim-Held locked now (first meetings (keep (open_to meetings locked now) ts)) ts le h
    Work-Held (runs_meeting {ts = ts} locked meeting now le) q h =
        claim-Held locked now (first meetings (keep (open_in meetings locked now meeting) ts)) ts le
          h
    Work-Held (settles {ts = ts} j now end) q h =
        update-Held j (settle now end) ts (settle-Keeps now end) h
    Work-Held (quiets {ts = ts} j now u) q h =
        update-Held j (mark_low_speech now u) ts (low_speech-Keeps now u) h
    Work-Held (resets {ts = ts} old_events old_rows) q h = resets-Held old_events old_rows ts h
    Work-Held (flags {ts = ts} j now) q h = other-Held j (flag now) ts (flag_id now) q h

    Works-Held :
        {ts us : List Transcript} (ws : Works meetings start ts us)
        → Spares k ws
        → Held start k ts
        → Held start k us
    Works-Held idle q h = h
    Works-Held (next ws w) q h = Work-Held w q.1 (Works-Held ws q.0 h)

    Held-closed :
        (locked : ℕ → Bool) (later : ℕ) (t : Transcript)
        → later ≤ start + day
        → Recent start t.last_attempted_at
        → open_to meetings locked later t ≡ false
    unfolding is_due
    Held-closed locked later t le h = elim (Option-cases t.last_attempted_at) [
      | inl e ↦ absurd (rw e at h)
      | inr (last, e) ↦ let h' : start ≤ last = rw e at h in rw e (ground arith)
    ]

    stamped-Held :
        (t : Transcript) (ts : List Transcript)
        → t.id ≡ k
        → Held start k (update t.id (stamp start) ts)
    unfolding update stamp
    stamped-Held t [] e = tt
    stamped-Held t (u ∷ ts) e = elim (Bool-cases (u.id == t.id)) [
      | inl q ↦ rw q ((λ _. omega arith), stamped-Held t ts e)
      | inr q ↦ rw q ((λ p. absurd (ground (arith, e, p, q))), stamped-Held t ts e)
    ]

    claim-taken-Held :
        (locked : ℕ → Bool) (o : Option Transcript) (ts : List Transcript) (c : Transcript)
        → (claim meetings locked start o ts).0 ≡ some c
        → c.id ≡ k
        → Held start k (claim meetings locked start o ts).1
    unfolding stamp
    claim-taken-Held locked none ts c e q = cc
    claim-taken-Held locked (some t) ts c e q = unfold stamp in stamped-Held t ts (cc (e, q))

    taken-Held :
        (locked : ℕ → Bool) (ts : List Transcript) (c : Transcript)
        → (claim_next meetings locked start ts).0 ≡ some c
        → c.id ≡ k
        → Held start k (claim_next meetings locked start ts).1
    unfolding claim_next
    taken-Held locked ts c e q =
        claim-taken-Held locked (first meetings (keep (open_to meetings locked start) ts)) ts c e q

    Chosen-ne :
        (locked : ℕ → Bool) (later : ℕ) (ts : List Transcript) (d : Transcript)
        → later ≤ start + day
        → Held start k ts
        → Chosen meetings locked later ts (some d)
        → d.id ≢ k
    unfolding stamp
    Chosen-ne locked later ts d le h (t, m, is_open, _, e) q =
        let same : t.id ≡ k = sym (ap (λ (r : Transcript). r.id) e) ∙ q in
        let shut =
          Held-closed locked later t le
            (All-In (λ u. u.id ≡ k → Recent start u.last_attempted_at) t ts h m same) in
        cc (is_open, shut)

    -- A row that was claimed at `start` is not claimed again by claim_next for 24 hours, unless a sweep
    -- flags it because its minutes changed: whatever the workers do to the table in between, any
    -- claims, any ends of stages of this row or of others, low-speech marks, version resets, and
    -- sweeps that flag other rows.
    pub no_second_claim :
        (locked : ℕ → Bool) (before_start : List Transcript) (c : Transcript) (ts : List Transcript)
        → (locked' : ℕ → Bool) (later : ℕ) (d : Transcript)
        → (claim_next meetings locked start before_start).0 ≡ some c
        → c.id ≡ k
        → (works : Works meetings start (claim_next meetings locked start before_start).1 ts)
        → Spares k works
        → later ≤ start + day
        → (claim_next meetings locked' later ts).0 ≡ some d
        → d.id ≢ k
    no_second_claim locked before_start c ts locked' later d taken is_k works spared le again =
        Chosen-ne locked' later ts d le
          (Works-Held works spared (taken-Held locked before_start c taken is_k))
          (subst (Chosen meetings locked' later ts) again
            (claim_next-Chosen meetings locked' later ts))
