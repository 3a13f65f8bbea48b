-- ===== src/Tunnel/Client/Answer.antt =====
-- What `run` makes of an answer (tuctl-client/src/main.rs).
use ktuctl_rs.Prelude.{
  ℕ, zero, suc, ◌+◌, ◌^◌, ◌≤◌, ◌<◌, ◌≡◌, ◌≢◌, ◌⊎◌, refl, ap, ◌∙◌, List, [], ◌∷◌, ◌++◌, Option, some,
  ltb, ltb-false, length, take, take_all, subst, arith, Bool-cases, inl, inr,
}
use ktuctl_rs.Bytes.{Bytes}
use ktuctl_rs.Text.{from_utf8_lossy}
use ktuctl_rs.Tunnel.Replay.{ReplayEntry, ReplayWindow, trim, replay_add, new}
use ktuctl_rs.Tunnel.Replay.Window.{IsTime, Recorded, replay_check-accepts}
use ktuctl_rs.Tunnel.Packet.{Crypto, ok, encrypt_packet, decrypt_packet, max_ct_size, min_len}
use ktuctl_rs.Tunnel.Packet.RoundTrip.{decrypt_packet-encrypt_packet}
use ktuctl_rs.Tunnel.Padding.{remove_padding}
use ktuctl_rs.Tunnel.Dsl.{Args, Code}
use ktuctl_rs.Tunnel.Client.{
  IpAddr, Round, Step, Reply, decrypt_and_validate_packet, receive, retry_loop, run,
  setup_pwhash_memlimit, default_replay_max,
}
use ktuctl_rs.Tunnel.Client.Rounds.{
  Sends, round_timeout, round_received, retry_loop_stop, retry_loop_more,
}
use ktuctl_rs.Tunnel.Client.Opening.{opened, decrypt_and_validate_packet-good}

-- A packet that is added does not put another one on record.
Recorded-of_trim :
    (ts : ℕ) (nonce : Bytes) (max : ℕ) (es : List ReplayEntry)
    → Recorded ts nonce (trim max es)
    → Recorded ts nonce es
unfolding trim
Recorded-of_trim ts nonce max [] r = r
Recorded-of_trim ts nonce max (e ∷ es) r = elim (Bool-cases (ltb max (length (e ∷ es)))) [
  | inl over ↦ inr (Recorded-of_trim ts nonce max es (rw over at r))
  | inr fits ↦ rw fits at r
]

Recorded-of_append :
    (ts : ℕ) (nonce : Bytes) (es : List ReplayEntry) (e : ReplayEntry)
    → Recorded ts nonce (es ++ (e ∷ []))
    → Recorded ts nonce es ⊎ (e.nonce ≡ nonce)
Recorded-of_append ts nonce [] e (inl (p, q)) = inr q
Recorded-of_append ts nonce [] e (inr r) = absurd r
Recorded-of_append ts nonce (x ∷ es) e (inl h) = inl (inl h)
Recorded-of_append ts nonce (x ∷ es) e (inr r) = elim (Recorded-of_append ts nonce es e r) [
  | inl before ↦ inl (inr before)
  | inr same ↦ inr same
]

not-Recorded :
    (ts ts' : ℕ) (nonce nonce' : Bytes) (w : ReplayWindow)
    → ¬ Recorded ts nonce w.entries
    → nonce' ≢ nonce
    → ¬ Recorded ts nonce (replay_add ts' nonce' w).entries
unfolding replay_add
not-Recorded ts ts' nonce nonce' w n d r =
    elim (Recorded-of_append ts nonce w.entries _ (Recorded-of_trim ts nonce w.max_size _ r)) [
      | inl before ↦ n before
      | inr same ↦ d same
    ]

module _ (c : Crypto) (psk : Bytes) (memlimit : ℕ) where
  receive-good :
      (r : Round) (sent : List (IpAddr × Bytes)) (rwin : ReplayWindow) (bytes pt : Bytes)
      → r.reply ≡ Reply.datagram bytes
      → min_len ≤ length (take max_ct_size bytes)
      → (decrypt_and_validate_packet c psk memlimit r.now (take max_ct_size bytes) rwin).0 ≡ ok pt
      → receive c psk memlimit r sent rwin
        ≡ Step.stop (record {
          code = Code.zero;
          sent = sent;
          response = some (from_utf8_lossy (remove_padding pt));
        })
  unfolding receive
  receive-good r sent rwin bytes pt e long good =
      rw (e, receive) (rw (ltb-false (length (take max_ct_size bytes)) min_len long, good) refl)

-- A client and another holder of the key phrase. The other one answers with `payload`, of at most
-- 4096 bytes, at the time `ts`, with a random salt and nonce.
module _ (c : Crypto) (psk : Bytes) (memlimit : ℕ) (payload salt nonce enc : Bytes) (ts : ℕ)
    (hs : length salt ≡ 16) (hn : length nonce ≡ 24) (ht : IsTime ts) (hp : length payload ≤ 4096)
    (sealed : encrypt_packet c psk memlimit payload ts salt nonce ≡ ok (enc, nonce, ts)) where
  answer_read : decrypt_packet c psk memlimit enc ≡ ok (payload, nonce, ts)
  answer_read =
      (decrypt_packet-encrypt_packet c psk memlimit payload salt nonce enc nonce ts ts hs hn
        (omega arith) sealed).0

  whole_answer : take max_ct_size enc ≡ enc
  whole_answer = take_all max_ct_size enc (
      omega (
        arith,
        (decrypt_packet-encrypt_packet c psk memlimit payload salt nonce enc nonce ts ts hs hn
            (omega arith) sealed).1,
      ))

  receive-answer :
      (r : Round) (sent : List (IpAddr × Bytes)) (rwin : ReplayWindow)
      → r.reply ≡ Reply.datagram enc
      → IsTime r.now
      → rwin.window < 2 ^ 32
      → r.now ≤ ts + rwin.window
      → ts ≤ r.now + rwin.window
      → ¬ Recorded ts nonce rwin.entries
      → receive c psk memlimit r sent rwin
        ≡ Step.stop (record {
          code = Code.zero;
          sent = sent;
          response = some (from_utf8_lossy (remove_padding payload));
        })
  receive-answer r sent rwin e hnow hw late early fresh =
      receive-good c psk memlimit r sent rwin enc payload e
        (rw whole_answer (opened c psk memlimit enc payload nonce ts rwin answer_read).0)
        (rw whole_answer (
          decrypt_and_validate_packet-good c psk memlimit r.now enc payload nonce ts rwin
            answer_read
            ((replay_check-accepts ts nonce r.now rwin hnow ht hw).1 (late, early, fresh))))

  -- The round that is answered.
  retry_loop-answered_now :
      (a : Args) (rounds : ℕ → Round) (left last : ℕ) (rwin : ReplayWindow)
      → Sends c psk memlimit a (rounds last)
      → (rounds last).nonce ≢ nonce
      → (rounds last).reply ≡ Reply.datagram enc
      → IsTime (rounds last).now
      → rwin.window < 2 ^ 32
      → (rounds last).now ≤ ts + rwin.window
      → ts ≤ (rounds last).now + rwin.window
      → ¬ Recorded ts nonce rwin.entries
      → ((retry_loop c psk memlimit a rounds left last rwin).code ≡ Code.zero)
        × ((retry_loop c psk memlimit a rounds left last rwin).response
            ≡ some (from_utf8_lossy (remove_padding payload)))
        × (length (retry_loop c psk memlimit a rounds left last rwin).sent ≡ 1)
  retry_loop-answered_now a rounds left last rwin (s, (ip, found), (packet, made), d, t) other e
        hnow hw late early fresh =
      let rwin' = replay_add (rounds last).ts (rounds last).nonce rwin in
      let answered =
        receive-answer (rounds last) ((ip, packet) ∷ []) rwin' e hnow (unfold replay_add in hw)
          (unfold replay_add in late) (unfold replay_add in early)
          (not-Recorded ts _ nonce _ rwin fresh other) in
      rw
        (retry_loop_stop c psk memlimit a rounds left last rwin _ (
          round_received c psk memlimit a (rounds last) rwin ip packet s found made d t ∙ answered))
        (refl, refl, refl)

  -- The rounds up to `last`, which is answered.
  retry_loop-answered :
      (a : Args) (rounds : ℕ → Round) (k left retries last : ℕ) (rwin : ReplayWindow)
      → retries + k ≡ last
      → k ≤ left
      → ((n : ℕ) → n ≤ last → Sends c psk memlimit a (rounds n))
      → ((n : ℕ) → n < last → (rounds n).reply ≡ Reply.timed_out)
      → ((n : ℕ) → n ≤ last → (rounds n).nonce ≢ nonce)
      → (rounds last).reply ≡ Reply.datagram enc
      → IsTime (rounds last).now
      → rwin.window < 2 ^ 32
      → (rounds last).now ≤ ts + rwin.window
      → ts ≤ (rounds last).now + rwin.window
      → ¬ Recorded ts nonce rwin.entries
      → ((retry_loop c psk memlimit a rounds left retries rwin).code ≡ Code.zero)
        × ((retry_loop c psk memlimit a rounds left retries rwin).response
            ≡ some (from_utf8_lossy (remove_padding payload)))
        × (length (retry_loop c psk memlimit a rounds left retries rwin).sent ≡ suc k)
  retry_loop-answered a rounds zero left retries last rwin at_last h sends waits other e hnow hw
        late early fresh =
      subst
        (λ n.
          ((retry_loop c psk memlimit a rounds left n rwin).code ≡ Code.zero)
          × ((retry_loop c psk memlimit a rounds left n rwin).response
              ≡ some (from_utf8_lossy (remove_padding payload)))
          × (length (retry_loop c psk memlimit a rounds left n rwin).sent ≡ 1))
        (omega arith)
        (retry_loop-answered_now a rounds left last rwin (sends last (omega arith))
          (other last (omega arith)) e hnow hw late early fresh)
  retry_loop-answered a rounds (suc k) zero retries last rwin at_last h sends waits other e hnow hw
        late early fresh =
      absurd (omega arith)
  retry_loop-answered a rounds (suc k) (suc left) retries last rwin at_last h sends waits other e
        hnow hw late early fresh =
      let (ip, packet, again) =
        round_timeout c psk memlimit a (rounds retries) rwin
          (sends retries (omega arith), waits retries (omega arith)) in
      let (code, response, sent) =
        retry_loop-answered a rounds k left (suc retries) last
          (replay_add (rounds retries).ts (rounds retries).nonce rwin) (omega arith) (omega arith)
          sends waits other e hnow (unfold replay_add in hw) (unfold replay_add in late)
          (unfold replay_add in early)
          (not-Recorded ts _ nonce _ rwin fresh (other retries (omega arith))) in
      rw (retry_loop_more c psk memlimit a rounds left retries rwin _ _ again)
        (code, response, ap suc sent)

-- An answer in time is shown. Rounds 0 to k, with k at most `max_retries`, send their packets, those
-- before k time out, and round k receives what a holder of the key phrase made of `payload` (at most
-- 4096 bytes) under a nonce that none of the client's packets has, at most `window` seconds from the
-- client's clock. Then `run` ends with code 0 after k + 1 packets, and shows the payload without its
-- padding, as text. Times are below 2 ^ 62 and the window is below 2 ^ 32.
pub run-answered :
    (c : Crypto) (limit : Option Bytes) (a : Args) (rounds : ℕ → Round) (k : ℕ)
    (payload salt nonce enc : Bytes) (ts : ℕ)
    → length salt ≡ 16
    → length nonce ≡ 24
    → IsTime ts
    → length payload ≤ 4096
    → encrypt_packet c a.psk (setup_pwhash_memlimit limit) payload ts salt nonce
      ≡ ok (enc, nonce, ts)
    → k ≤ a.max_retries
    → ((n : ℕ) → n ≤ k → Sends c a.psk (setup_pwhash_memlimit limit) a (rounds n))
    → ((n : ℕ) → n < k → (rounds n).reply ≡ Reply.timed_out)
    → ((n : ℕ) → n ≤ k → (rounds n).nonce ≢ nonce)
    → (rounds k).reply ≡ Reply.datagram enc
    → IsTime (rounds k).now
    → a.window < 2 ^ 32
    → (rounds k).now ≤ ts + a.window
    → ts ≤ (rounds k).now + a.window
    → ((run c limit a rounds).code ≡ Code.zero)
      × ((run c limit a rounds).response ≡ some (from_utf8_lossy (remove_padding payload)))
      × (length (run c limit a rounds).sent ≡ suc k)
unfolding run new
run-answered c limit a rounds k payload salt nonce enc ts hs hn ht hp sealed h sends waits other e
      hnow hw late early =
    retry_loop-answered c a.psk (setup_pwhash_memlimit limit) payload salt nonce enc ts hs hn ht hp
      sealed a rounds k a.max_retries 0 k (new a.window default_replay_max) (omega arith) h sends
      waits other e hnow hw late early (λ r. r)
