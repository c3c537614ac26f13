-- ===== src/Services/Workers/Served.antt =====
-- src/core/services/liquidation_engine.rs: what holds whenever the tasks of the pipeline have taken any
-- steps.
use mathlib.Core.List.Perm
use mathlib.Core.List.{append_assoc, Perm, perm_middle, perm_append_comm}
use liq_ranger.Base.{
  ℕ, suc, ◌+◌, ◌≡◌, sym, ap, subst, ◌∙◌, Option, none, some, List, [], ◌∷◌, ◌++◌, All, map, length,
  length-append, arith, ◌≤◌, refl, Bool, true, false,
}
use liq_ranger.Services.Pipeline.{Ports, Event, quoted, simulated, refreshed, broadcast, LiqPayload}
use liq_ranger.Services.Pipeline.Safety.{
  IsSafe, NoBroadcast, NoBroadcast-IsSafe, process_payload-IsSafe,
}
use liq_ranger.Services.Workers.{
  Workers, initial, Step, sent, received, spawned, ended, panicked, shut, Reach, here, next,
}

abbrev list_of : Option LiqPayload → List LiqPayload
list_of none = []
list_of (some payload) = payload ∷ []

-- The payloads of tasks that have ended or run, the one that waits for a permit, and those in the
-- channel.
abbrev placed : Workers → List LiqPayload
placed w = map (λ f. f.payload) w.finished ++ (w.running ++ (list_of w.held ++ w.channel))

-- And those that were lost with the channel.
abbrev pub payloads : Workers → List LiqPayload
payloads w = w.dropped ++ placed w

NoBroadcast-append : (ds es : List Event) → NoBroadcast (ds ++ es) → NoBroadcast es
NoBroadcast-append [] es h = h
NoBroadcast-append (quoted s d a q ∷ ds) es h = NoBroadcast-append ds es h
NoBroadcast-append (simulated b j g ∷ ds) es h = NoBroadcast-append ds es h
NoBroadcast-append (refreshed t p ∷ ds) es h = NoBroadcast-append ds es h
NoBroadcast-append (broadcast j g r ∷ ds) es h = absurd h

-- The calls up to any moment of a safe task are safe.
IsSafe-append : (ds es : List Event) → IsSafe (ds ++ es) → IsSafe es
IsSafe-append [] es h = h
IsSafe-append (quoted s d a q ∷ ds) es h = IsSafe-append ds es h
IsSafe-append (simulated b j g ∷ ds) es h = IsSafe-append ds es h
IsSafe-append (refreshed t p ∷ ds) es h = IsSafe-append ds es h
IsSafe-append (broadcast j g r ∷ ds) es h = NoBroadcast-IsSafe es (NoBroadcast-append ds es h.2)

module _ {W : Type 0} (ports : Ports W) (capacity : ℕ) where
  -- The payloads that the steps have sent, in order.
  abbrev pub sent_by : {u v : Workers} → Reach ports capacity u v → List LiqPayload
  sent_by here = []
  sent_by (next r (sent w payload a l)) = sent_by r ++ payload ∷ []
  sent_by (next r (received w payload channel a b c)) = sent_by r
  sent_by (next r (spawned w payload permits a b c)) = sent_by r
  sent_by (next r (ended w before payload after trace a b)) = sent_by r
  sent_by (next r (panicked w before payload after left trace a b)) = sent_by r
  sent_by (next r (shut w a b)) = sent_by r

  placed-sent :
      (w : Workers) (payload : LiqPayload)
      → placed (record w { channel = w.channel ++ payload ∷ [] }) ≡ placed w ++ payload ∷ []
  placed-sent w payload =
      let finished = map (λ f. f.payload) w.finished in
      let held = list_of w.held in
      ap (λ l. finished ++ (w.running ++ l)) (sym (append_assoc held w.channel (payload ∷ [])))
      ∙ ap (λ l. finished ++ l) (sym (append_assoc w.running (held ++ w.channel) (payload ∷ [])))
      ∙ sym (append_assoc finished (w.running ++ (held ++ w.channel)) (payload ∷ []))

  received-same :
      (w : Workers) (payload : LiqPayload) (channel : List LiqPayload)
      → w.held ≡ none
      → w.channel ≡ payload ∷ channel
      → placed w ≡ placed (record w { channel = channel; held = some payload })
  received-same w payload channel h c =
      ap (λ o. map (λ f. f.payload) w.finished ++ (w.running ++ (list_of o ++ w.channel))) h
      ∙ ap (λ l. map (λ f. f.payload) w.finished ++ (w.running ++ l)) c

  spawned-perm :
      (w : Workers) (payload : LiqPayload) (permits : ℕ)
      → w.held ≡ some payload
      → Perm
          (placed (record w { held = none; permits = permits; running = payload ∷ w.running }))
          (placed w)
  spawned-perm w payload permits h = Perm.append_left (map (λ f. f.payload) w.finished) (
      subst (λ o. Perm (payload ∷ w.running ++ w.channel) (w.running ++ (list_of o ++ w.channel)))
        (sym h) (Perm.symm (perm_middle w.running w.channel)))

  ended-perm :
      (w : Workers) (before : List LiqPayload) (payload : LiqPayload) (after : List LiqPayload)
      (trace : List Event) (has_panicked : Bool)
      → w.running ≡ before ++ payload ∷ after
      → Perm
          (placed (record w {
            permits = suc w.permits;
            running = before ++ after;
            finished =
                record { payload = payload; trace = trace; has_panicked = has_panicked }
                ∷ w.finished;
          }))
          (placed w)
  ended-perm w before payload after trace has_panicked h =
      let finished = map (λ f. f.payload) w.finished in
      let rest = list_of w.held ++ w.channel in
      Perm.trans (Perm.symm (perm_middle finished ((before ++ after) ++ rest))) (
        Perm.append_left finished (
          subst (λ l. Perm (payload ∷ (before ++ after) ++ rest) (l ++ rest)) (sym h)
            (Perm.append_right rest (Perm.symm (perm_middle before after)))))

  -- The permits are those that no task holds, each task that has ended was safe, nothing is lost while
  -- the loop runs, and nothing waits once it has ended.
  abbrev pub IsGood : ℕ → Workers → Type 0
  IsGood limit w =
      (w.permits + length w.running ≡ limit)
      × (length w.channel ≤ capacity)
      × All (λ f. IsSafe f.trace) w.finished
      × (w.stopped ≡ false → w.dropped ≡ [])
      × (w.stopped ≡ true → (w.channel ≡ []) × (w.held ≡ none))

  permits_back :
      (limit permits : ℕ) (running before : List LiqPayload) (payload : LiqPayload)
      (after : List LiqPayload)
      → permits + length running ≡ limit
      → running ≡ before ++ payload ∷ after
      → suc permits + length (before ++ after) ≡ limit
  permits_back limit permits running before payload after h a =
      omega
        (arith, h, ap length a, length-append before (payload ∷ after), length-append before after)

  Step-IsGood :
      (limit : ℕ) {u v : Workers} → Step ports capacity u v → IsGood limit u → IsGood limit v
  Step-IsGood limit (sent u payload a l) (h, c, k, d, z) =
      (h, omega (arith, l, length-append u.channel (payload ∷ [])), k, d, (λ e. absurd (cc)))
  Step-IsGood limit (received u payload channel a b c) (h, l, k, d, z) =
      (h, omega (arith, l, ap length c), k, d, (λ e. absurd (cc)))
  Step-IsGood limit (spawned u payload permits a b c) (h, l, k, d, z) =
      (omega (arith, h, c), l, k, d, (λ e. absurd (cc)))
  Step-IsGood limit (ended u before payload after trace a (world, e)) (h, l, k, d, z) = (
    permits_back limit u.permits u.running before payload after h a,
    l,
    (subst IsSafe (sym e) (process_payload-IsSafe ports payload world), k),
    d,
    z,
  )
  Step-IsGood limit (panicked u before payload after left trace a (world, e)) (h, l, k, d, z) = (
    permits_back limit u.permits u.running before payload after h a,
    l,
    (
      IsSafe-append left trace (subst IsSafe (sym e) (process_payload-IsSafe ports payload world)),
      k,
    ),
    d,
    z,
  )
  Step-IsGood limit (shut u a b) (h, l, k, d, z) =
      (h, omega arith, k, (λ e. absurd (cc)), (λ e. (refl, b)))

  Reach-IsGood : (limit : ℕ) {w : Workers} → Reach ports capacity (initial limit) w → IsGood limit w
  unfolding initial
  Reach-IsGood limit here = (omega arith, omega arith, tt, (λ e. refl), λ e. absurd (cc))
  Reach-IsGood limit (next r s) = Step-IsGood limit s (Reach-IsGood limit r)

  end-perm :
      (finished running channel : List LiqPayload)
      → Perm (channel ++ (finished ++ (running ++ []))) (finished ++ (running ++ channel))
  end-perm finished running channel =
      subst (Perm (channel ++ (finished ++ (running ++ []))))
        (append_assoc finished (running ++ []) channel
          ∙ ap (λ l. finished ++ l) (append_assoc running [] channel))
        (perm_append_comm channel (finished ++ (running ++ [])))

  shut-perm :
      (u : Workers)
      → u.dropped ≡ []
      → u.held ≡ none
      → Perm (u.channel ++ placed (record u { channel = [] })) (u.dropped ++ placed u)
  shut-perm u d h = rw (d, h) (end-perm (map (λ f. f.payload) u.finished) u.running u.channel)

  -- The payloads sent are those of tasks that have ended or run, of the loop, of the channel, and those
  -- lost with it, each as often as it was sent.
  payloads-perm :
      (limit : ℕ) (w : Workers) (r : Reach ports capacity (initial limit) w)
      → Perm (payloads w) (sent_by r)
  unfolding initial
  payloads-perm limit w here = Perm.rfl
  payloads-perm limit w (next r (sent u payload a l)) =
      subst (λ x. Perm x (sent_by r ++ payload ∷ []))
        (append_assoc u.dropped (placed u) (payload ∷ [])
          ∙ ap (λ x. u.dropped ++ x) (sym (placed-sent u payload)))
        (Perm.append_right (payload ∷ []) (payloads-perm limit u r))
  payloads-perm limit w (next r (received u payload channel a b c)) =
      subst (λ l. Perm (u.dropped ++ l) (sent_by r)) (received-same u payload channel b c)
        (payloads-perm limit u r)
  payloads-perm limit w (next r (spawned u payload permits a b c)) =
      Perm.trans (Perm.append_left u.dropped (spawned-perm u payload permits b))
        (payloads-perm limit u r)
  payloads-perm limit w (next r (ended u before payload after trace a b)) =
      Perm.trans (Perm.append_left u.dropped (ended-perm u before payload after trace false a))
        (payloads-perm limit u r)
  payloads-perm limit w (next r (panicked u before payload after left trace a b)) =
      Perm.trans (Perm.append_left u.dropped (ended-perm u before payload after trace true a))
        (payloads-perm limit u r)
  payloads-perm limit w (next r (shut u a b)) =
      let (h, l, k, d, z) = Reach-IsGood limit r in
      Perm.trans (shut-perm u (d a) b) (payloads-perm limit u r)

  -- After any steps from the start, in any order, at most as many tasks run as the limit says, and the
  -- channel holds no more than its capacity; each payload that was sent is in one place, as often as
  -- it was sent: with a task that runs or has ended, by a return or a panic, with the loop, in the
  -- channel, or among those that are lost with the channel when the loop ends, of which there is none
  -- before, and after which none waits; and each task that has ended made at most one broadcast, of a
  -- job whose swap covers the debt and which the simulator has passed.
  pub Reach-IsServed :
      (limit : ℕ) (w : Workers) (r : Reach ports capacity (initial limit) w)
      → Perm (payloads w) (sent_by r) × IsGood limit w
  Reach-IsServed limit w r = (payloads-perm limit w r, Reach-IsGood limit r)
