-- ===== src/Bus/Router/Steps/Reachable.antt =====
-- kernel/src/bus/router.rs: what holds in every state that the bus can reach.
use fabric_os.Base.{ℕ, ◌+◌, ◌≤◌, ◌<◌, ◌≡◌, refl, sym, ap, ◌∙◌, true, List, arith, min}
use fabric_os.Base.Words.{u64_mod}
use fabric_os.Bus.Arena.Bounds.{init-InBuffer}
use fabric_os.Bus.Audit
use fabric_os.Bus.Audit.{AuditLog, audit_capacity}
use fabric_os.Bus.Audit.Verify.{verify_chain-Logged}
use fabric_os.Bus.Router.{
  BusRouter, new, init, tick, advance_ticks, register_monitor, unregister_monitor, monitor_drain,
  reject_with_policy, verify_audit_chain,
}
use fabric_os.Crypto.{Crypto}
use fabric_os.Bus.Router.Steps.{
  Step, Reach, IsSound, new-IsSound, inits, ticks, advances, registers, unregisters, sends,
  receives, taps, untaps, drains, denies, clears, start, next,
}
use fabric_os.Bus.Router.Steps.Keep.{
  quiet-Fresh, idle-Fresh, register-Fresh, unregister-Fresh, receive-Fresh, clear-Fresh,
}
use fabric_os.Bus.Router.Steps.Sending.{Fresh, send-Fresh, Refused-Fresh, denies-Refused}

module _ (crypto : Crypto) (key : List ℕ) where
  -- Every operation keeps the bus sound, and adds at most one entry to the audit log.
  Step-Fresh :
      {r r' : BusRouter}
      → Step crypto key r r'
      → IsSound crypto key r
      → r.audit.total_count + 1 < u64_mod
      → Fresh crypto key r r'
  unfolding init tick advance_ticks register_monitor unregister_monitor monitor_drain
      reject_with_policy
  Step-Fresh (inits r) v fits =
      quiet-Fresh crypto key r (init r) v.waiting v v.mail v.in_order v.few (init-InBuffer r.arena)
        refl refl refl
  Step-Fresh (ticks r) v fits = idle-Fresh crypto key r _ v refl refl refl refl refl
  Step-Fresh (advances r n) v fits = idle-Fresh crypto key r _ v refl refl refl refl refl
  Step-Fresh (registers r p) v fits = register-Fresh crypto key r p v
  Step-Fresh (unregisters r p) v fits = unregister-Fresh crypto key r p v
  Step-Fresh (sends r h payload nonce) v fits = send-Fresh crypto key r h payload nonce v fits
  Step-Fresh (receives r p) v fits = receive-Fresh crypto key r p v
  Step-Fresh (taps r f) v fits = idle-Fresh crypto key r _ v refl refl refl refl refl
  Step-Fresh (untaps r id) v fits = idle-Fresh crypto key r _ v refl refl refl refl refl
  Step-Fresh (drains r id) v fits = idle-Fresh crypto key r _ v refl refl refl refl refl
  Step-Fresh (denies r h) v fits =
      Refused-Fresh crypto key r h _ v.waiting v fits v.mail (denies-Refused crypto key r h)
  Step-Fresh (clears r) v fits = clear-Fresh crypto key r

  Reach-Fresh :
      {n : ℕ} {r : BusRouter}
      → Reach crypto key n r
      → n < u64_mod
      → IsSound crypto key r × (r.audit.total_count ≤ n)
  unfolding Fresh
  Reach-Fresh start lt = (new-IsSound crypto key, unfold new Audit.new in omega arith)
  Reach-Fresh (next before step) lt =
      let (v, few_entries) = Reach-Fresh before (omega arith) in
      let (w, more) = Step-Fresh step v (omega arith) in (w, omega arith)

  pub Reach-IsSound :
      {n : ℕ} {r : BusRouter} → Reach crypto key n r → n < u64_mod → IsSound crypto key r
  Reach-IsSound at lt = (Reach-Fresh at lt).0

  ring_count-min :
      (log : AuditLog) {k : ℕ} → log.total_count ≡ k → Audit.ring_count log ≡ min k audit_capacity
  unfolding Audit.ring_count
  ring_count-min log e = ground arith

  -- In every state that fewer than 2^64 operations reach, verification of the audit log passes,
  -- and counts the messages sent and rejected, up to the 512 that the log keeps.
  pub verify_audit_chain-Reach :
      {n : ℕ} {r : BusRouter}
      → Reach crypto key n r
      → n < u64_mod
      → verify_audit_chain crypto r ≡ (min (r.total_sent + r.total_rejected) audit_capacity, true)
  unfolding verify_audit_chain
  verify_audit_chain-Reach {n} {r} at lt =
      let v = Reach-IsSound at lt in
      verify_chain-Logged crypto r.audit v.entries v.log
      ∙ ap (λ k. (k, true)) (sym v.log.ring.counted ∙ ring_count-min r.audit (v.counted))
