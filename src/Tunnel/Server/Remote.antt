-- ===== src/Tunnel/Server/Remote.antt =====
-- A command on its way from tuctl-client/src/main.rs to the child process of
-- tuctl-server/src/main.rs, and its output on the way back.
use ktuctl_rs.Prelude.{
  ℕ, ◌+◌, ◌^◌, ◌≤◌, ◌<◌, ◌≡◌, ◌≢◌, ap, ◌∙◌, List, [], ◌∷◌, ◌++◌, true, some, length, take,
  length-take, take_all, inl, inr, ltb, if◌then◌else◌, arith,
}
use ktuctl_rs.Bytes.{Bytes}
use ktuctl_rs.Tunnel.Replay.{ReplayWindow, replay_check, replay_add}
use ktuctl_rs.Tunnel.Replay.Window.{IsTime, Recorded, replay_check-accepts}
use ktuctl_rs.Tunnel.Packet.{Crypto, ok, encrypt_packet, decrypt_packet, max_pt_size, max_ct_size}
use ktuctl_rs.Tunnel.Packet.RoundTrip.{decrypt_packet-encrypt_packet}
use ktuctl_rs.Tunnel.Padding.{
  remove_padding, build_padded_cmd, pad_response, remove_padding-build_padded_cmd,
  remove_padding-pad_response,
}
use ktuctl_rs.Tunnel.Server.{
  Env, Word, Child, exited, Chance, command_line, execute_command, accept, respond, process_packet,
}
use ktuctl_rs.Tunnel.Server.Once.{accept_good}

-- The output of a child, cut to what a packet can hold.
abbrev pub output : Bytes → Bytes → Bytes
output stdout stderr =
    if ltb max_pt_size (length (stdout ++ stderr))
    then take max_pt_size (stdout ++ stderr)
    else stdout ++ stderr

length-cut : (n : ℕ) (bs : Bytes) → length (if ltb n (length bs) then take n bs else bs) ≤ n
length-cut n bs = ground (arith, length-take n bs)

pub length-output : (stdout stderr : Bytes) → length (output stdout stderr) ≤ 4096
length-output stdout stderr = length-cut max_pt_size (stdout ++ stderr)

-- A command that fits a packet still does with its padding.
length-build_padded_cmd :
    (script : Bytes) (last random : ℕ)
    → last ≢ b'#'
    → length (script ++ (last ∷ [])) ≤ max_pt_size
    → length (build_padded_cmd (script ++ (last ∷ [])) random) ≤ max_pt_size
length-build_padded_cmd script last random hl hm =
    elim (remove_padding-build_padded_cmd script last random hl).1 [
      | inl short ↦ omega (arith, short)
      | inr same ↦ rw same hm
    ]

module _ (c : Crypto) (psk : Bytes) (memlimit : ℕ) (env : Env) (child : List Word → Bytes → Child)
    (chance : Chance) where
  execute_command_exited :
      (cmd stdout stderr : Bytes)
      → child (command_line env) cmd ≡ exited stdout stderr
      → execute_command env child cmd ≡ some (output stdout stderr)
  unfolding execute_command
  execute_command_exited cmd stdout stderr h = rw (h, execute_command)

  respond_exited :
      (stdout stderr enc nonce2 : Bytes) (ts2 : ℕ) (pt : Bytes) (w : ReplayWindow)
      → child (command_line env) (remove_padding pt) ≡ exited stdout stderr
      → encrypt_packet c psk memlimit
          (pad_response (output stdout stderr) chance.random)
          chance.ts
          chance.salt
          chance.nonce
        ≡ ok (enc, nonce2, ts2)
      → respond c psk memlimit env child chance pt w ≡ record {
        replay = replay_add ts2 nonce2 w;
        executed = remove_padding pt ∷ [];
        sent = enc ∷ [];
      }
  unfolding respond
  respond_exited stdout stderr enc nonce2 ts2 pt w h s =
      rw (execute_command_exited (remove_padding pt) stdout stderr h, respond) (rw s)

  process_packet_accepted :
      (packet pt : Bytes) (w w' : ReplayWindow)
      → accept c psk memlimit chance.now packet w ≡ (ok pt, w')
      → process_packet c psk memlimit env child chance packet w
        ≡ respond c psk memlimit env child chance pt w'
  unfolding process_packet
  process_packet_accepted packet pt w w' e =
      let accepted : (accept c psk memlimit chance.now packet w).0 ≡ ok pt = ap (λ r. r.0) e in
      rw (accepted, process_packet) (ap (λ r. respond c psk memlimit env child chance pt r.1) e)

  -- A client and a server with the same key phrase and memory limit: the client encrypts a padded
  -- script of at most 4096 bytes that does not end in `#`; its packet comes in time (at most `window`
  -- seconds from the server's clock, both below 2 ^ 62) and is not on record. Of the packet the server gets
  -- what fits its buffer of 4160 bytes. Then it runs exactly the script, byte for byte, once. If the child
  -- exits and the response is encrypted, one packet is sent, and what the client decrypts from it and
  -- strips of its padding is the child's output and error output, cut at 4096 bytes, stripped likewise. A
  -- random salt has 16 bytes and a nonce 24.
  pub process_packet-remote :
      (script : Bytes) (last random ts t ts2 : ℕ)
      (salt nonce n pkt stdout stderr enc nonce2 : Bytes) (w : ReplayWindow)
      → last ≢ b'#'
      → length (script ++ (last ∷ [])) ≤ max_pt_size
      → length salt ≡ 16
      → length nonce ≡ 24
      → encrypt_packet c psk memlimit
          (build_padded_cmd (script ++ (last ∷ [])) random)
          ts
          salt
          nonce
        ≡ ok (pkt, n, t)
      → IsTime ts
      → IsTime chance.now
      → w.window < 2 ^ 32
      → chance.now ≤ ts + w.window
      → ts ≤ chance.now + w.window
      → ¬ Recorded ts nonce w.entries
      → child (command_line env) (script ++ (last ∷ [])) ≡ exited stdout stderr
      → length chance.salt ≡ 16
      → length chance.nonce ≡ 24
      → chance.ts < 2 ^ 64
      → encrypt_packet c psk memlimit
          (pad_response (output stdout stderr) chance.random)
          chance.ts
          chance.salt
          chance.nonce
        ≡ ok (enc, nonce2, ts2)
      → ((process_packet c psk memlimit env child chance (take max_ct_size pkt) w).executed
          ≡ (script ++ (last ∷ [])) ∷ [])
        × ((process_packet c psk memlimit env child chance (take max_ct_size pkt) w).sent
            ≡ enc ∷ [])
        × (decrypt_packet c psk memlimit enc
            ≡ ok (pad_response (output stdout stderr) chance.random, chance.nonce, chance.ts))
        × (remove_padding (pad_response (output stdout stderr) chance.random)
            ≡ remove_padding (output stdout stderr))
  process_packet-remote script last random ts t ts2 salt nonce n pkt stdout stderr enc nonce2 w hl
        hm hs hn sealed ht hnow hw late early fresh runs hs2 hn2 ht2 sealed2 =
      (
        rw (whole, handled, stripped),
        rw (whole, handled),
        (decrypt_packet-encrypt_packet c psk memlimit _ chance.salt chance.nonce enc nonce2
            chance.ts ts2 hs2 hn2 ht2 sealed2).0,
        (remove_padding-pad_response (output stdout stderr) chance.random
            (length-output stdout stderr)).0,
      )
    where
      cmd : Bytes
      cmd = script ++ (last ∷ [])

      pt : Bytes
      pt = build_padded_cmd cmd random

      stripped : remove_padding pt ≡ cmd
      stripped = (remove_padding-build_padded_cmd script last random hl).0

      opened :
          (decrypt_packet c psk memlimit pkt ≡ ok (pt, nonce, ts)) × (length pkt ≡ length pt + 64)
      opened =
          decrypt_packet-encrypt_packet c psk memlimit pt salt nonce pkt n ts t hs hn (omega arith)
            sealed

      whole : take max_ct_size pkt ≡ pkt
      whole =
          take_all max_ct_size pkt
            (omega (arith, opened.1, length-build_padded_cmd script last random hl hm))

      checked : (replay_check chance.now ts nonce w).0 ≡ true
      checked = (replay_check-accepts ts nonce chance.now w hnow ht hw).1 (late, early, fresh)

      w' : ReplayWindow
      w' = replay_add ts nonce (replay_check chance.now ts nonce w).1

      handled : process_packet c psk memlimit env child chance pkt w ≡ record {
        replay = replay_add ts2 nonce2 w';
        executed = remove_padding pt ∷ [];
        sent = enc ∷ [];
      }
      handled =
          process_packet_accepted pkt pt w w'
            (accept_good c psk memlimit chance.now pkt pt nonce ts w opened.0 checked)
          ∙ respond_exited stdout stderr enc nonce2 ts2 pt w' (rw stripped runs) sealed2
