-- ===== src/Alignment/Pairing.antt =====
-- ai/transcripts/aligner.py: pair_group.
pub mod Covers
use docket_pub.Prelude.{List, [], ◌∷◌, ◌++◌, length, any, keep, drop}
use docket_pub.Alignment.Types.{
  Event, EventType, same_type, adjourn, amendment, consent_amendment, executive_session_motion,
  item_deferred, item_opened, motion, procedural_ruling, public_comment, recess, reconvene, recusal,
  roll_call, second, statement, vote,
}

abbrev pub all_types : List EventType
all_types =
    adjourn ∷ amendment ∷ consent_amendment ∷ executive_session_motion ∷ item_deferred ∷ item_opened
    ∷ motion ∷ procedural_ruling ∷ public_comment ∷ recess ∷ reconvene ∷ recusal ∷ roll_call
    ∷ second ∷ statement ∷ vote ∷ []

-- `[e for e in evs if e.event_type == et]`
abbrev pub of_type : EventType → List Event → List Event
of_type et evs = keep (λ e. same_type e.event_type et) evs

-- `sorted(types)`, the types of the events of both sides, in alphabetical order.
abbrev pub types_of : List Event → List Event → List EventType
types_of ts ms = keep (λ et. any (λ e. same_type e.event_type et) (ts ++ ms)) all_types

abbrev pub zip : List Event → List Event → List (Event × Event)
zip [] ms = []
zip (t ∷ ts) [] = []
zip (t ∷ ts) (m ∷ ms) = (t, m) ∷ zip ts ms

pub record Paired : Type 0 where
  pub pairs : List (Event × Event)
  pub t_only : List Event
  pub m_only : List Event

-- The body of the loop.
unfoldable pub pair_type : List Event → List Event → EventType → Paired → Paired
pair_type t_evs m_evs et p =
    let ts = of_type et t_evs in
    let ms = of_type et m_evs in
    record {
      pairs = p.pairs ++ zip ts ms;
      t_only = p.t_only ++ drop (length ms) ts;
      m_only = p.m_only ++ drop (length ts) ms;
    }

unfoldable pub pair_types : List Event → List Event → List EventType → Paired → Paired
pair_types t_evs m_evs [] p = p
pair_types t_evs m_evs (et ∷ ets) p = pair_types t_evs m_evs ets (pair_type t_evs m_evs et p)

unfoldable pub pair_group : List Event → List Event → Paired
pair_group t_evs m_evs =
    pair_types t_evs m_evs (types_of t_evs m_evs) (record { pairs = []; t_only = []; m_only = [] })
