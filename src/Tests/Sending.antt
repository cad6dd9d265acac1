-- ===== src/Tests/Sending.antt =====
-- The theorems on sending and receiving, at the bus with two processes.
use fabric_os.Base.{
  ℕ, ◌<◌, ◌≡◌, ◌↔◌, ◌⊎◌, refl, inl, inr, List, [], ◌∷◌, ◌++◌, Option, some, none, length, min, true,
  arith, ◌+◌, if◌then◌else◌, ◌==◌, Bool-cases,
}
use fabric_os.Base.Results.{ok, err}
use fabric_os.Base.Slots.{update}
use fabric_os.Bus.Arena.{ArenaSlice}
use fabric_os.Bus.Audit.{audit_capacity}
use fabric_os.Bus.Queue.{Envelope, queue_capacity}
use fabric_os.Bus.Queue.Fifo.{new-Represents, popped}
use fabric_os.Bus.Router
use fabric_os.Bus.Router.{
  BusError, BusRouter, register_process, unregister_process, receive, verify_audit_chain,
}
use fabric_os.Bus.Router.Mail.{Mail, send-Mail, receive-Mail}
use fabric_os.Bus.Router.Send.{send}
use fabric_os.Bus.Router.Send.Accept.{Acceptable, send_ok_iff, nonempty}
use fabric_os.Bus.Router.Send.Outcome.{envelope_of}
use fabric_os.Bus.Router.Steps.{Reach, start, next, inits, registers, sends}
use fabric_os.Bus.Router.Steps.Reachable.{verify_audit_chain-Reach}
use fabric_os.Tests.Data.{toy_crypto, toy_key, two_ends, hello, hello_bytes}

send_ok_example :
    ((send toy_crypto toy_key two_ends hello hello_bytes 1).1 ≡ ok tt)
    ↔ Acceptable toy_crypto toy_key two_ends hello hello_bytes
send_ok_example = send_ok_iff toy_crypto toy_key two_ends hello hello_bytes 1

abbrev no_mail : ℕ → Option (List Envelope)
no_mail p = if 1 == p then some [] else if 2 == p then some [] else none

two_ends-Mail : Mail two_ends no_mail
two_ends-Mail p = elim (Bool-cases (1 == p)) [
  | inl e ↦ rw e new-Represents
  | inr e ↦ rw e elim (Bool-cases (2 == p)) [ inl f ↦ rw f new-Represents | inr f ↦ rw f tt ]
]

send-Mail_example :
    let out = send toy_crypto toy_key two_ends hello hello_bytes 1 in
    ((xs : List Envelope) × (slice : Option ArenaSlice) × (out.1 ≡ ok tt)
      × (no_mail 2 ≡ some xs)
      × (length xs < queue_capacity)
      × Mail out.0 (
          update no_mail 2
            (some (xs ++ envelope_of toy_crypto toy_key hello (nonempty hello_bytes) slice ∷ []))))
    ⊎ ((e : BusError) × (out.1 ≡ err e) × Mail out.0 no_mail)
send-Mail_example = send-Mail toy_crypto toy_key two_ends no_mail hello hello_bytes 1 two_ends-Mail

receive-Mail_example :
    ((receive two_ends 2).1 ≡ (popped []).1)
    × Mail (receive two_ends 2).0 (update no_mail 2 (some (popped []).0))
receive-Mail_example = receive-Mail two_ends no_mail 2 [] two_ends-Mail refl

-- The bus after its buffer is there, two processes are registered and one message is sent.
abbrev booted : BusRouter
booted = (register_process (register_process (Router.init Router.new) 1).0 2).0

abbrev after_hello : BusRouter
after_hello = (send toy_crypto toy_key booted hello hello_bytes 1).0

after_hello-Reach : Reach toy_crypto toy_key 4 after_hello
after_hello-Reach =
    next
      (next (next (next start (inits Router.new)) (registers (Router.init Router.new) 1))
        (registers (register_process (Router.init Router.new) 1).0 2))
      (sends booted hello hello_bytes 1)

verify_audit_chain-Reach_example :
    verify_audit_chain toy_crypto after_hello
    ≡ (min (after_hello.total_sent + after_hello.total_rejected) audit_capacity, true)
verify_audit_chain-Reach_example =
    verify_audit_chain-Reach toy_crypto toy_key after_hello-Reach (omega arith)

abbrev letter : Envelope
letter = envelope_of toy_crypto toy_key hello hello_bytes none
