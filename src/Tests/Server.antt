-- ===== src/Tests/Server.antt =====
-- A run of tuctl-server/src/main.rs with one datagram.
use ktuctl_rs.Prelude.{◌≡◌, ◌≤◌, refl, ◌+◌, arith, [], ◌∷◌, none, true, length, All, replicate}
use ktuctl_rs.Bytes.{to_be_bytes, from_be_bytes}
use ktuctl_rs.Tunnel.Replay.{new, replay_check, retain, seen}
use ktuctl_rs.Tunnel.Packet.{ok, psk2key, encrypt_packet, decrypt_packet}
use ktuctl_rs.Tunnel.RateLimiter.{
  SocketAddr, datagram, allow, admit, refill, get, put, retain as evict,
}
use ktuctl_rs.Tunnel.RateLimiter.Fair.{WithinBurst}
use ktuctl_rs.Tunnel.Padding.{remove_padding, pad_response}
use ktuctl_rs.Tunnel.Client.{setup_pwhash_memlimit, decrypt_and_validate_packet}
use ktuctl_rs.Tunnel.Client.Alike.{Alike, decrypt_and_validate_packet-accept}
use ktuctl_rs.Tunnel.Server.{accept, respond, execute_command, command_line, detect_ktuctl}
use ktuctl_rs.Tunnel.Server.System.{
  Args, State, initial, start, exit, listening, received, accepted, responded, receives, accepts,
  responds, Reach, here, next,
}
use ktuctl_rs.Tunnel.Server.System.Limits.{IsLimited}
use ktuctl_rs.Tunnel.Server.System.Origin.{start-Reach}
use ktuctl_rs.Tunnel.Server.System.Authentic.{Commanded, Answers}
use ktuctl_rs.Tunnel.Server.System.Once.{work, start-once}
use ktuctl_rs.Tests.Setup.{crypto, nonce, script_text, packet}
use ktuctl_rs.Tests.Tunnel.{env, child, chance, float, home}

-- The same host, from two ports.
abbrev client : SocketAddr
client = record { ip = home; port = 40000 }

abbrev elsewhere : SocketAddr
elsewhere = record { ip = home; port = 40001 }

abbrev args : Args
args = record { bind = []; port = 7000; psk = replicate 8 b'k'; window = 30; replay_max = 1024 }

abbrev first : State crypto float 10 5
first = initial crypto float 10 5 args (setup_pwhash_memlimit none)

-- It arrives, is accepted, and is answered.
abbrev arrived : State crypto float 10 5
arrived = received crypto float 10 5 0 (datagram client (packet script_text 100)) first

abbrev taken : State crypto float 10 5
taken = accepted crypto float 10 5 110 (client, packet script_text 100) [] arrived

abbrev answered : State crypto float 10 5
answered = responded crypto float 10 5 env child chance (client, script_text) [] taken

waiting : arrived.waiting ≡ (client, packet script_text 100) ∷ []
unfolding received admit allow refill get put evict to_be_bytes
waiting = refl

handling : taken.handling ≡ (client, script_text) ∷ []
unfolding received accepted accept decrypt_packet psk2key replay_check retain seen new to_be_bytes
    from_be_bytes
handling = refl

begins : start crypto float 10 5 args none true ≡ listening first
unfolding start
begins = refl

reached : Reach crypto float 10 5 first answered
reached =
    next
      (next (next here (receives first 0 (datagram client (packet script_text 100))))
        (accepts arrived 110 [] [] (client, packet script_text 100) waiting))
      (responds taken env child chance [] [] (client, script_text) handling)

start-Reach_example :
    (8 ≤ length answered.psk)
    × (answered.psk ≡ args.psk)
    × IsLimited args.window args.replay_max answered.replay
    × WithinBurst float 10 answered.limiter.map
    × All (Commanded crypto answered.psk answered.memlimit answered.admitted) answered.executed
    × All (Answers answered.admitted) answered.sent
start-Reach_example = start-Reach crypto float 10 5 args none true first answered begins reached

-- The same packet again, from another port.
abbrev again : State crypto float 10 5
again = received crypto float 10 5 115 (datagram elsewhere (packet script_text 100)) answered

replayed : Reach crypto float 10 5 taken again
replayed =
    next (next here (responds taken env child chance [] [] (client, script_text) handling))
      (receives answered 115 (datagram elsewhere (packet script_text 100)))

opens :
    decrypt_packet crypto arrived.psk arrived.memlimit (packet script_text 100)
    ≡ ok (script_text, nonce, 100)
unfolding decrypt_packet psk2key to_be_bytes from_be_bytes
opens = refl

takes :
    (accept crypto arrived.psk arrived.memlimit 110 (packet script_text 100) arrived.replay).0
    ≡ ok script_text
unfolding received accept decrypt_packet psk2key replay_check retain seen new to_be_bytes
    from_be_bytes
takes = refl

-- One command was begun, and nothing waits to be handled.
idle : work crypto float 10 5 again ≤ work crypto float 10 5 arrived + 1024
unfolding received responded respond accept accepted execute_command command_line detect_ktuctl
    remove_padding pad_response encrypt_packet psk2key to_be_bytes
idle = omega arith

start-once_example :
    (accepted crypto float 10 5 120 (elsewhere, packet script_text 100) [] again).handling
    ≡ again.handling
unfolding replayed
start-once_example =
    start-once crypto float 10 5 args none true first arrived again client elsewhere
      (packet script_text 100) script_text nonce 100 110 120 [] [] begins
      (next here (receives first 0 (datagram client (packet script_text 100)))) opens takes
      (omega arith) (omega arith) (omega arith) replayed ((tt, tt), tt) idle

-- A packet for a fresh record.
decrypt_and_validate_packet-accept_example :
    Alike
      (decrypt_and_validate_packet crypto [] 1024 110 (packet script_text 100) (new 30 4))
      (accept crypto [] 1024 110 (packet script_text 100) (new 30 4))
decrypt_and_validate_packet-accept_example =
    decrypt_and_validate_packet-accept crypto [] 1024 (packet script_text 100) 110 (new 30 4)

-- A key phrase that is too short.
short_key : start crypto float 10 5 (record args { psk = replicate 7 b'k' }) none true ≡ exit 2
unfolding start
short_key = refl
