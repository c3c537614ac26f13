-- ===== src/Services/Dispatch/Found.antt =====
-- src/core/services/protocol_scanner.rs: what a scan sends.
use mathlib.Core.List.{append_assoc, append-nil}
use liq_ranger.Base.{
  ℕ, ◌≡◌, ◌⊎◌, inl, inr, refl, sym, ap, subst, ◌∙◌, Bool, true, false, some, List, [], ◌∷◌, ◌++◌,
  All, map, ok, arith,
}
use liq_ranger.Core.Identity.{HexCodec, Text}
use liq_ranger.Core.Types.{BorrowerProfile}
use liq_ranger.Readers.Outcome.{contains}
use liq_ranger.Readers.Morpho.{Chain, fetch_liquidation_candidates}
use liq_ranger.Readers.Morpho.Scan.{Distinct, Reported, fetch-Reported}
use liq_ranger.Services.Pipeline.{LiqPayload}
use liq_ranger.Services.Dispatch.{Channel, to_payload, Sender, after_send, send_each, scan_readers}

module _ (channel : Channel) where
  open channel use {State, send}

  -- The first profiles were sent, in order; the others were not, since the channel refused one.
  pub record IsSent (block : ℕ) (profiles : List BorrowerProfile) (before after : Sender channel)
      : Type 0 where
    pub taken : List BorrowerProfile
    pub rest : List BorrowerProfile
    pub split : profiles ≡ taken ++ rest
    pub grown : after.sent ≡ before.sent ++ map (to_payload block) taken
    pub complete :
        (rest ≡ []) ⊎ ((s : State) × (payload : LiqPayload) × ((send s payload).0 ≡ false))

  accepted-IsSent :
      (block : ℕ) (profile : BorrowerProfile) (profiles : List BorrowerProfile)
      (before middle after : Sender channel)
      → middle.sent ≡ before.sent ++ to_payload block profile ∷ []
      → IsSent block profiles middle after
      → IsSent block (profile ∷ profiles) before after
  accepted-IsSent block profile profiles before middle after e h = record {
    taken = profile ∷ h.taken;
    rest = h.rest;
    split = ap (λ l. profile ∷ l) h.split;
    grown =
        h.grown
        ∙ ap (λ l. l ++ map (to_payload block) h.taken) e
        ∙ append_assoc before.sent (to_payload block profile ∷ []) (map (to_payload block) h.taken);
    complete = h.complete;
  }

  refused-IsSent :
      (block : ℕ) (profiles : List BorrowerProfile) (before after : Sender channel)
      → after.sent ≡ before.sent
      → (profiles ≡ []) ⊎ ((s : State) × (payload : LiqPayload) × ((send s payload).0 ≡ false))
      → IsSent block profiles before after
  refused-IsSent block profiles before after e c = record {
    taken = [];
    rest = profiles;
    split = refl;
    grown = e ∙ sym (append-nil before.sent);
    complete = c;
  }

  after_send-IsSent :
      (block : ℕ) (profile : BorrowerProfile) (profiles : List BorrowerProfile)
      (before : Sender channel) (answer : Bool × State)
      → send before.state (to_payload block profile) ≡ answer
      → ((t : Sender channel) → IsSent block profiles t (send_each channel block profiles t))
      → IsSent block (profile ∷ profiles) before (
          after_send channel
            (λ t. send_each channel block profiles t)
            before
            (to_payload block profile)
            answer)
  after_send-IsSent block profile profiles before (true, state) e ih =
      let middle : Sender channel = record {
        state = state;
        sent = before.sent ++ to_payload block profile ∷ [];
      } in
      accepted-IsSent block profile profiles before middle (send_each channel block profiles middle)
        refl (ih middle)
  after_send-IsSent block profile profiles before (false, state) e ih =
      refused-IsSent block (profile ∷ profiles) before (record before { state = state }) refl
        (inr (before.state, to_payload block profile, ap (λ a. a.0) e))

  -- One reader's profiles are sent in their order, all of them unless the channel refuses one.
  pub send_each-IsSent :
      (block : ℕ) (profiles : List BorrowerProfile) (s : Sender channel)
      → IsSent block profiles s (send_each channel block profiles s)
  unfolding send_each
  send_each-IsSent block [] s = refused-IsSent block [] s s refl (inl refl)
  send_each-IsSent block (profile ∷ profiles) s =
      after_send-IsSent block profile profiles s (send s.state (to_payload block profile)) refl
        (λ t. send_each-IsSent block profiles t)

  abbrev identities : List BorrowerProfile → List Text
  identities = map λ p. p.identity

  contains-first :
      (ps qs : List BorrowerProfile) (t : Text)
      → contains (identities (ps ++ qs)) t ≡ false
      → contains (identities ps) t ≡ false
  contains-first [] qs t h = refl
  contains-first (p ∷ ps) qs t h = ground (arith, contains-first ps qs t)

  Distinct-first :
      (ps qs : List BorrowerProfile) → Distinct (identities (ps ++ qs)) → Distinct (identities ps)
  Distinct-first [] qs h = tt
  Distinct-first (p ∷ ps) qs (c, d) = (contains-first ps qs p.identity c, Distinct-first ps qs d)

  module _ (hex : HexCodec) (chain : Chain) (scale : ℕ) (tracked : List Text) where
    -- A payload of this block, with a profile that a scan of the tracked identities reports.
    abbrev pub IsOfScan : ℕ → LiqPayload → Type 0
    IsOfScan block payload =
        (payload.block_number ≡ block) × Reported hex chain scale tracked payload.profile

    first-IsOfScan :
        (block : ℕ) (ps qs : List BorrowerProfile)
        → All (Reported hex chain scale tracked) (ps ++ qs)
        → All (IsOfScan block) (map (to_payload block) ps)
    first-IsOfScan block [] qs h = tt
    first-IsOfScan block (p ∷ ps) qs (h, hs) = ((refl, h), first-IsOfScan block ps qs hs)

    identities-sent :
        (block : ℕ) (ps : List BorrowerProfile)
        → map (λ p. p.profile.identity) (map (to_payload block) ps) ≡ identities ps
    identities-sent block [] = refl
    identities-sent block (p ∷ ps) = ap (λ l. p.identity ∷ l) (identities-sent block ps)

    -- What a scan of the Morpho reader sends is of the block, stands for positions that can be
    -- liquidated, under identities of the watchlist, and has no identity twice.
    pub scan_readers-IsOfScan :
        (block : ℕ) (profiles : List BorrowerProfile) (state : State)
        → fetch_liquidation_candidates hex chain scale tracked ≡ ok profiles
        → let after =
            scan_readers channel block
              (ok (some profiles) ∷ [])
              (record { state = state; sent = [] }) in
          All (IsOfScan block) after.sent × Distinct (map (λ p. p.profile.identity) after.sent)
    unfolding scan_readers
    scan_readers-IsOfScan block profiles state e =
        let sent = send_each-IsSent block profiles (record { state = state; sent = [] }) in
        let (reported, distinct) = fetch-Reported hex chain scale tracked profiles e in
        (
          subst (All (IsOfScan block)) (sym sent.grown) (
              first-IsOfScan block sent.taken sent.rest
                (subst (All (Reported hex chain scale tracked)) sent.split reported)),
          subst (λ l. Distinct (map (λ p. p.profile.identity) l)) (sym sent.grown)
              (subst Distinct (sym (identities-sent block sent.taken)) (
                Distinct-first sent.taken sent.rest
                  (subst (λ l. Distinct (identities l)) sent.split distinct))),
        )
