-- ===== src/Tunnel/EndToEnd.antt =====
-- A run of tuctl-client/src/main.rs against tuctl-server/src/main.rs.
use ktuctl_rs.Prelude.{
  ℕ, ◌+◌, ◌^◌, ◌≤◌, ◌<◌, ◌≡◌, ◌≢◌, ap, sym, ◌∙◌, subst, List, [], ◌∷◌, ◌++◌, Option, some, length,
  take, arith,
}
use ktuctl_rs.Bytes.{Bytes}
use ktuctl_rs.Text.{from_utf8_lossy}
use ktuctl_rs.Tunnel.Replay.{ReplayWindow}
use ktuctl_rs.Tunnel.Replay.Window.{IsTime, Recorded}
use ktuctl_rs.Tunnel.Packet.{Crypto, ok, encrypt_packet, max_pt_size, max_ct_size}
use ktuctl_rs.Tunnel.Padding.{
  build_padded_cmd, remove_padding, pad_response, remove_padding-pad_response,
}
use ktuctl_rs.Tunnel.Dsl.{Args, Code}
use ktuctl_rs.Tunnel.Server.{Env, Word, Child, exited, Chance, command_line, process_packet}
use ktuctl_rs.Tunnel.Server.Remote.{output, process_packet-remote, length-output}
use ktuctl_rs.Tunnel.Client.{Round, Reply, run, setup_pwhash_memlimit}
use ktuctl_rs.Tunnel.Client.Rounds.{Sends}
use ktuctl_rs.Tunnel.Client.Answer.{run-answered}

-- Two times are at most `window` seconds apart.
abbrev pub Near : ℕ → ℕ → ℕ → Type 0
Near window t u = (t ≤ u + window) × (u ≤ t + window)

-- What a random salt and a random nonce have, and a time.
abbrev pub IsFresh : Bytes → Bytes → ℕ → Type 0
IsFresh salt nonce ts = (length salt ≡ 16) × (length nonce ≡ 24) × IsTime ts

module _ (c : Crypto) (limit : Option Bytes) (a : Args) (rounds : ℕ → Round) (k : ℕ) (env : Env)
    (child : List Word → Bytes → Child) (chance : Chance) (w : ReplayWindow)
    (pkt enc stdout stderr : Bytes) where
  -- The client and the server work together. They have the same key phrase and memory limit. The
  -- client's script has at most 4096 bytes and does not end in `#`; its rounds send their packets, under
  -- nonces other than the server's, and those before k, which is at most `max_retries`, time out. The packet
  -- of round k reaches the server in time, in a buffer of 4160 bytes, and is not on its record; the child
  -- exits, its response is encrypted, and it reaches round k in time: each within the window of who receives
  -- it. Then the server runs exactly the script, once, and sends exactly that response; and the client ends
  -- with code 0 and shows the child's output and error output, cut at 4096 bytes, without the `#`s at its
  -- end, as text. Times are below 2 ^ 62 and windows below 2 ^ 32; a salt has 16 bytes and a nonce 24.
  pub run-process_packet :
      (script : Bytes) (last : ℕ)
      → a.script ≡ script ++ (last ∷ [])
      → last ≢ b'#'
      → length a.script ≤ max_pt_size
      → k ≤ a.max_retries
      → ((n : ℕ) → n ≤ k → Sends c a.psk (setup_pwhash_memlimit limit) a (rounds n))
      → ((n : ℕ) → n < k → (rounds n).reply ≡ Reply.timed_out)
      → ((n : ℕ) → n ≤ k → (rounds n).nonce ≢ chance.nonce)
      → IsFresh (rounds k).salt (rounds k).nonce (rounds k).ts
      → IsFresh chance.salt chance.nonce chance.ts
      → encrypt_packet c a.psk
          (setup_pwhash_memlimit limit)
          (build_padded_cmd a.script (rounds k).random)
          (rounds k).ts
          (rounds k).salt
          (rounds k).nonce
        ≡ ok (pkt, (rounds k).nonce, (rounds k).ts)
      → IsTime chance.now
      → w.window < 2 ^ 32
      → Near w.window chance.now (rounds k).ts
      → ¬ Recorded (rounds k).ts (rounds k).nonce w.entries
      → child (command_line env) a.script ≡ exited stdout stderr
      → encrypt_packet c a.psk
          (setup_pwhash_memlimit limit)
          (pad_response (output stdout stderr) chance.random)
          chance.ts
          chance.salt
          chance.nonce
        ≡ ok (enc, chance.nonce, chance.ts)
      → (rounds k).reply ≡ Reply.datagram enc
      → IsTime (rounds k).now
      → a.window < 2 ^ 32
      → Near a.window (rounds k).now chance.ts
      → ((process_packet c a.psk
            (setup_pwhash_memlimit limit)
            env
            child
            chance
            (take max_ct_size pkt)
            w).executed
          ≡ a.script ∷ [])
        × ((process_packet c a.psk
              (setup_pwhash_memlimit limit)
              env
              child
              chance
              (take max_ct_size pkt)
              w).sent
            ≡ enc ∷ [])
        × ((run c limit a rounds).code ≡ Code.zero)
        × ((run c limit a rounds).response
            ≡ some (from_utf8_lossy (remove_padding (output stdout stderr))))
  run-process_packet script last spelled hl hm few sends waits other (hs, hn, ht) (hs2, hn2, ht2)
        sealed hnow hw (late, early) fresh runs sealed2 answered hnow2 hw2 (late2, early2) =
      let memlimit = setup_pwhash_memlimit limit in
      let (stripped, short, long) =
        remove_padding-pad_response (output stdout stderr) chance.random
          (length-output stdout stderr) in
      let (executed, sent, opened, same) =
        process_packet-remote c a.psk memlimit env child chance script last (rounds k).random
          (rounds k).ts (rounds k).ts chance.ts (rounds k).salt (rounds k).nonce (rounds k).nonce
          pkt stdout stderr enc chance.nonce w hl (subst (λ s. length s ≤ max_pt_size) spelled hm)
          hs hn
          (subst
            (λ s.
              encrypt_packet c a.psk memlimit (build_padded_cmd s (rounds k).random) (rounds k).ts
                (rounds k).salt (rounds k).nonce
              ≡ ok (pkt, (rounds k).nonce, (rounds k).ts))
            spelled sealed)
          ht hnow hw late early fresh (ap (child (command_line env)) (sym spelled) ∙ runs) hs2 hn2
          (omega arith) sealed2 in
      let (code, response, packets) =
        run-answered c limit a rounds k (pad_response (output stdout stderr) chance.random)
          chance.salt chance.nonce enc chance.ts hs2 hn2 ht2 short sealed2 few sends waits other
          answered hnow2 hw2 late2 early2 in
      (
        executed ∙ ap (λ s. s ∷ []) (sym spelled),
        sent,
        code,
        response ∙ ap (λ t. some (from_utf8_lossy t)) stripped,
      )
