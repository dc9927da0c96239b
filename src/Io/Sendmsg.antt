-- ===== src/Io/Sendmsg.antt =====
-- `bsd_sendmsg` of sb_io.c on a stream: consecutive sends, of which only that of the last buffer that
-- is not empty bears MSG_OOB.
use lwip_amiga.Base.{
  ℕ, ◌+◌, ◌-◌, ◌≡◌, ◌⊎◌, inl, inr, refl, ap, sym, ◌∙◌, Bool, true, false, List, [], ◌∷◌, ◌++◌, ◌==◌,
  if◌then◌else◌, length, bit_and, arith, append_assoc, append-nil, length-append,
}
use lwip_amiga.Sock.State.{Socket, Opener}
use lwip_amiga.Io.Send.{
  Turn, Chunk, SendResult, accepted, rejected, unfinished, Sent, is_done, tcp_send,
}
use lwip_amiga.Io.Sending.{all_bytes, all_bytes-append}
use lwip_amiga.Io.Told.{no_bytes, nothing_left, Tells, Handed, tcp_send-Handed, is_urgent}

-- A buffer of the message, with what befalls its send.
pub record OutVec : Type 0 where
  pub bytes : List ℕ
  pub turns : List Turn

-- Whether all the buffers are empty.
abbrev pub all_empty : List OutVec → Bool
all_empty [] = true
all_empty (v ∷ vs) = if is_done v.bytes then all_empty vs else false

-- `flags & ~SB_MSG_OOB`, but for the last buffer with bytes.
abbrev pub flags_for : ℕ → List OutVec → ℕ
flags_for flags vs = if all_empty vs then flags else flags - bit_and flags 0x01

abbrev pub plus : ℕ → SendResult → SendResult
plus n (accepted m) = accepted (n + m)
plus n (rejected e) = if n == 0 then rejected e else accepted n
plus n (unfinished m) = unfinished (n + m)

abbrev pub takes_all : ℕ → SendResult → Bool
takes_all n (accepted m) = n == m
takes_all n _ = false

unfoldable pub sendmsg_loop : List Opener → ℕ → List OutVec → ℕ → Sent → Sent
unfolding tcp_send
sendmsg_loop openers flags [] n d = record d { verdict = accepted n }
sendmsg_loop openers flags (v ∷ vs) n d =
    let r = tcp_send openers d.sock v.bytes (flags_for flags vs) v.turns in
    let e : Sent = record {
      sock = r.sock;
      verdict = plus n r.verdict;
      wrote = d.wrote ++ r.wrote;
      outputs = d.outputs + r.outputs;
    } in
    elim (is_done v.bytes) [
      | true ↦ sendmsg_loop openers flags vs n d
      | false ↦ elim (takes_all (length v.bytes) r.verdict) [
        | true ↦ sendmsg_loop openers flags vs (n + length v.bytes) e
        | false ↦ e
      ]
    ]

unfoldable pub stream_sendmsg : List Opener → Socket → List OutVec → ℕ → Sent
unfolding sendmsg_loop
stream_sendmsg openers s vs flags =
    sendmsg_loop openers flags vs 0
      (record { sock = s; verdict = accepted 0; wrote = []; outputs = 0 })

-- The bytes of the message.
abbrev pub message_bytes : List OutVec → List ℕ
message_bytes [] = []
message_bytes (v ∷ vs) = v.bytes ++ message_bytes vs

sendmsg_loop_cons :
    (openers : List Opener) (flags : ℕ) (v : OutVec) (vs : List OutVec) (n : ℕ) (d : Sent)
    → let r = tcp_send openers d.sock v.bytes (flags_for flags vs) v.turns in
      let e : Sent = record {
        sock = r.sock;
        verdict = plus n r.verdict;
        wrote = d.wrote ++ r.wrote;
        outputs = d.outputs + r.outputs;
      } in
      let all = sendmsg_loop openers flags (v ∷ vs) n d in
      ((is_done v.bytes ≡ true) × (all ≡ sendmsg_loop openers flags vs n d))
      ⊎ ((takes_all (length v.bytes) r.verdict ≡ true)
          × (all ≡ sendmsg_loop openers flags vs (n + length v.bytes) e))
      ⊎ (all ≡ e)
unfolding sendmsg_loop
sendmsg_loop_cons openers flags v vs n d = ground arith

-- What has been handed over is a prefix of the buffer.
abbrev pub IsPrefix : List ℕ → Sent → Type 0
IsPrefix buf r = (rest : List ℕ) × (all_bytes r.wrote ++ rest ≡ buf)

all_taken :
    (cs : List Chunk) (rest xs : List ℕ) (o : SendResult)
    → all_bytes cs ++ rest ≡ xs
    → Tells cs o
    → takes_all (length xs) o ≡ true
    → all_bytes cs ≡ xs
all_taken cs rest xs (accepted m) p t h =
    let none : rest ≡ [] =
      no_bytes rest (ground (arith, ap length p, length-append (all_bytes cs) rest, t, h)) in
    sym (append-nil (all_bytes cs)) ∙ ap (◌++◌ (all_bytes cs)) (sym none) ∙ p
all_taken cs rest xs (rejected e) p t h = absurd (cc h)
all_taken cs rest xs (unfinished m) p t h = absurd (cc h)

sendmsg_loop-IsPrefix :
    (openers : List Opener) (flags : ℕ) (buf : List ℕ) (vs : List OutVec) (n : ℕ) (d : Sent)
    → all_bytes d.wrote ++ message_bytes vs ≡ buf
    → IsPrefix buf (sendmsg_loop openers flags vs n d)
unfolding sendmsg_loop
sendmsg_loop-IsPrefix openers flags buf [] n d h = ([], h)
sendmsg_loop-IsPrefix openers flags buf (v ∷ vs) n d h =
    elim (sendmsg_loop_cons openers flags v vs n d) [
      | inl (y, e) ↦ rw e (
          sendmsg_loop-IsPrefix openers flags buf vs n d (
            ap (λ x. all_bytes d.wrote ++ (x ++ message_bytes vs)) (sym (nothing_left v.bytes y))
            ∙ h))
      | inr (inl (t, e)) ↦ rw e (
          sendmsg_loop-IsPrefix openers flags buf vs (n + length v.bytes) f (
            joined
            ∙ ap (λ x. all_bytes d.wrote ++ (x ++ message_bytes vs))
                (all_taken r.wrote part.0 v.bytes r.verdict part.1 handed.tells t)
            ∙ h))
      | inr (inr e) ↦ rw e (
        part.0 ++ message_bytes vs,
        ap (λ x. x ++ (part.0 ++ message_bytes vs)) (all_bytes-append d.wrote r.wrote)
            ∙ append_assoc (all_bytes d.wrote) (all_bytes r.wrote) (part.0 ++ message_bytes vs)
            ∙ ap (◌++◌ (all_bytes d.wrote)) (
                sym (append_assoc (all_bytes r.wrote) part.0 (message_bytes vs))
                ∙ ap (λ x. x ++ message_bytes vs) part.1)
            ∙ h,
      )
    ]
  where
    r : Sent
    r = tcp_send openers d.sock v.bytes (flags_for flags vs) v.turns

    f : Sent
    f = record {
      sock = r.sock;
      verdict = plus n r.verdict;
      wrote = d.wrote ++ r.wrote;
      outputs = d.outputs + r.outputs;
    }

    handed : Handed (is_urgent v.bytes (flags_for flags vs)) v.bytes r
    handed = tcp_send-Handed openers d.sock v.bytes (flags_for flags vs) v.turns

    part : (rest : List ℕ) × (all_bytes r.wrote ++ rest ≡ v.bytes)
    part = handed.prefix

    joined :
        all_bytes (d.wrote ++ r.wrote) ++ message_bytes vs
        ≡ all_bytes d.wrote ++ (all_bytes r.wrote ++ message_bytes vs)
    joined =
        ap (λ x. x ++ message_bytes vs) (all_bytes-append d.wrote r.wrote)
        ∙ append_assoc (all_bytes d.wrote) (all_bytes r.wrote) (message_bytes vs)

-- Whatever befalls the sends of its buffers, what `sendmsg` hands to lwIP on a stream is a prefix of
-- the bytes of the message: no buffer is skipped, sent twice or sent after one that was cut short.
pub stream_sendmsg-IsPrefix :
    (openers : List Opener) (s : Socket) (vs : List OutVec) (flags : ℕ)
    → IsPrefix (message_bytes vs) (stream_sendmsg openers s vs flags)
unfolding stream_sendmsg
stream_sendmsg-IsPrefix openers s vs flags =
    sendmsg_loop-IsPrefix openers flags (message_bytes vs) vs 0
      (record { sock = s; verdict = accepted 0; wrote = []; outputs = 0 }) refl
