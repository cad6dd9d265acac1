-- ===== src/Bus/Monitor/Registry.antt =====
-- kernel/src/bus/monitor.rs: the registry of taps.
use fabric_os.Base.{
  ℕ, zero, suc, ◌<◌, ◌≡◌, refl, ap, ◌∙◌, ◌↔◌, List, [], ◌∷◌, Option, none, some, arith,
  if◌then◌else◌, get_elem?, All, Bool-cases, inl, inr, Option-cases,
}
use fabric_os.Bus.Queue.{Envelope}
use fabric_os.Bus.Monitor.{
  MonitorTap, MonitorFilter, MonitorRegistry, new_tap, register, register_in, notify, notify_in,
  notify_tap, matches, push_event, pending_count, pending_in, drain, drain_in, pop_event,
}
use fabric_os.Bus.Monitor.Taps.{Buffers, push_last, push_event-Buffers}

notify_in-get_elem? :
    (e : Envelope) (slots : List (Option MonitorTap)) (i : ℕ) (slot : Option MonitorTap)
    → get_elem? slots i ≡ some slot
    → get_elem? (notify_in e slots) i ≡ some (notify_tap e slot)
unfolding notify_in
notify_in-get_elem? e [] i slot h = cc
notify_in-get_elem? e (s ∷ slots) zero slot h = ground arith
notify_in-get_elem? e (s ∷ slots) (suc i) slot h = notify_in-get_elem? e slots i slot h

-- All envelopes of a list, one after the other.
pub notify_all : MonitorRegistry → List Envelope → MonitorRegistry
notify_all r [] = r
notify_all r (e ∷ es) = notify_all (notify r e) es

-- The last 64 of the events buffered so far and of those that match.
pub observe : MonitorFilter → List Envelope → List Envelope → List Envelope
observe f xs [] = xs
observe f xs (e ∷ es) = observe f (if matches f e then push_last xs e else xs) es

notify_tap-Buffers :
    (f : MonitorFilter) (t : MonitorTap) (xs : List Envelope) (e : Envelope)
    → t.filter ≡ f
    → Buffers t xs
    → (u : MonitorTap) × (notify_tap e (some t) ≡ some u)
      × (u.filter ≡ f)
      × (u.id ≡ t.id)
      × Buffers u (if matches f e then push_last xs e else xs)
unfolding notify_tap push_event
notify_tap-Buffers f t xs e p r = elim (Bool-cases (matches f e)) [
  | inl hit ↦ (
    push_event t e,
    ground arith,
    ground arith,
    ground arith,
    rw hit (push_event-Buffers t xs e r),
  )
  | inr miss ↦ (t, ground arith, p, refl, rw miss r)
]

notify_all-observe_of :
    (f : MonitorFilter) (es : List Envelope) (r : MonitorRegistry) (i : ℕ) (t : MonitorTap)
    (xs : List Envelope)
    → t.filter ≡ f
    → get_elem? r.taps i ≡ some (some t)
    → Buffers t xs
    → (u : MonitorTap) × (get_elem? (notify_all r es).taps i ≡ some (some u))
      × (u.id ≡ t.id)
      × Buffers u (observe f xs es)
unfolding notify_all observe notify
notify_all-observe_of f [] r i t xs p at held = (t, at, refl, held)
notify_all-observe_of f (e ∷ es) r i t xs p at held =
    let (u, seen, same, same_id, kept) = notify_tap-Buffers f t xs e p held in
    let at_u = notify_in-get_elem? e r.taps i (some t) at ∙ ap some seen in
    let (w, at_w, w_id, w_held) =
      notify_all-observe_of f es (notify r e) i u (if matches f e then push_last xs e else xs) same
        at_u kept in
    (w, at_w, w_id ∙ same_id, w_held)

-- After any envelopes, a tap that stood for a list of events holds the last 64 of those and of the
-- envelopes that match its filter.
pub notify_all-observe :
    (es : List Envelope) (r : MonitorRegistry) (i : ℕ) (t : MonitorTap) (xs : List Envelope)
    → get_elem? r.taps i ≡ some (some t)
    → Buffers t xs
    → (u : MonitorTap) × (get_elem? (notify_all r es).taps i ≡ some (some u))
      × (u.id ≡ t.id)
      × Buffers u (observe t.filter xs es)
notify_all-observe es r i t xs at held = notify_all-observe_of t.filter es r i t xs refl at held

abbrev pub Taken : Option MonitorTap → Type 0
Taken none = ⊥
Taken (some t) = Unit {0}

register_in-full :
    (slots : List (Option MonitorTap)) (tap : MonitorTap)
    → (register_in slots tap ≡ none) ↔ All Taken slots
unfolding register_in
register_in-full [] tap = (λ h. tt, λ h. refl)
register_in-full (none ∷ slots) tap = (λ h. cc, λ h. absurd h.0)
register_in-full (some t ∷ slots) tap = ground (arith, register_in-full slots tap)

-- Registration fails exactly when every slot is taken, and then changes nothing.
register_full :
    (r : MonitorRegistry) (f : MonitorFilter)
    → (((register r f).1 ≡ none) ↔ All Taken r.taps)
      × ((register r f).1 ≡ none → (register r f).0 ≡ r)
unfolding register
register_full r f = ground (arith, register_in-full r.taps (new_tap r.next_id f))

abbrev pub IdBelow : ℕ → Option MonitorTap → Type 0
IdBelow n none = Unit {0}
IdBelow n (some t) = t.id < n

register_in-silent :
    (slots slots' : List (Option MonitorTap)) (n : ℕ) (f : MonitorFilter)
    → All (IdBelow n) slots
    → register_in slots (new_tap n f) ≡ some slots'
    → (pending_in slots' n ≡ 0) × ((drain_in slots' n).1 ≡ none)
unfolding register_in pending_in drain_in new_tap pop_event
register_in-silent [] slots' n f below e = cc
register_in-silent (none ∷ slots) slots' n f below e = ground arith
register_in-silent (some t ∷ slots) slots' n f below e =
    elim (Option-cases (register_in slots (new_tap n f))) [
      | inl full ↦ absurd (ground arith)
      | inr (rest, here) ↦ ground (arith, register_in-silent slots rest n f below.1 here)
    ]

-- A new tap gets the next identifier and has nothing to drain, if the identifiers in use are smaller.
pending_count-register :
    (r : MonitorRegistry) (f : MonitorFilter) (id : ℕ)
    → All (IdBelow r.next_id) r.taps
    → (register r f).1 ≡ some id
    → (id ≡ r.next_id)
      × (pending_count (register r f).0 id ≡ 0)
      × ((drain (register r f).0 id).1 ≡ none)
unfolding register pending_count drain
pending_count-register r f id below e =
    elim (Option-cases (register_in r.taps (new_tap r.next_id f))) [
      | inl full ↦ absurd (ground arith)
      | inr (slots, done) ↦ ground (arith, register_in-silent r.taps slots r.next_id f below done)
    ]
