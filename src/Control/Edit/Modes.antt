-- ===== src/Control/Edit/Modes.antt =====
-- `client-add` and `server-add` of ktuctl-rs/src/commands.rs on a module in the other mode.
use ktuctl_rs.Prelude.{
  ◌≡◌, ◌≢◌, refl, ap, List, [], none, Option, Bool, true, false, ◌||◌, not, ◌=b◌, ◌==◌,
  if◌then◌else◌, ==-false, arith,
}
use ktuctl_rs.Bytes.{Endian, Bytes}
use ktuctl_rs.Address.{IpAddr}
use ktuctl_rs.Outcome.{Outcome, ok, err, panic, blocked, stuck, Error}
use ktuctl_rs.World.{World, Net, and_then, lift}
use ktuctl_rs.Protocol.Constants.{tutu_cmd_get_config, tutu_attr_config}
use ktuctl_rs.Protocol.Structs.{TutuConfig, tutu_config_layout}
use ktuctl_rs.Netlink.Closed.Exchanges.{receive_struct-Holds}
use ktuctl_rs.Netlink.Queries.{Extends, Extends-refl, sends_closed}
use ktuctl_rs.Control.UidMap.{UidMap}
use ktuctl_rs.Control.Names.{GlobalFlags}
use ktuctl_rs.Control.Options.{parse_options, client_add_words, server_add_words, nothing_set}
use ktuctl_rs.Control.Listing.Looks.{IsQuestion, of_controller, of_module}
use ktuctl_rs.Control.Edit.{get_config, add_peer, add_user, cmd_client_add, cmd_server_add}

module _ (en : Endian) where
  -- The command does not succeed, and all it sends are questions.
  abbrev pub Refuses : Net (Unit {0}) → World → Type 0
  Refuses cmd w = Extends (IsQuestion en) w.sent (cmd w).1.sent × ((cmd w).0 ≢ ok tt)

  fails-Refuses : (e : Error) (w : World) → Refuses (lift (err e)) w
  fails-Refuses e w = (Extends-refl (IsQuestion en) w.sent, λ h. cc)

  if-Refuses :
      (b : Bool) (e : Error) (k : Net (Unit {0})) (w : World)
      → Refuses k w
      → Refuses (if b then lift (err e) else k) w
  if-Refuses true e k w h = fails-Refuses e w
  if-Refuses false e k w h = h

  lift-Refuses :
      {A : Type 0} (o : Outcome A) (k : A → Net (Unit {0})) (w : World)
      → ((a : A) → Refuses (k a) w)
      → Refuses (λ v. and_then (o, v) k) w
  lift-Refuses (ok a) k w h = h a
  lift-Refuses (err e) k w h = fails-Refuses e w
  lift-Refuses panic k w h = (Extends-refl (IsQuestion en) w.sent, λ h. cc)
  lift-Refuses blocked k w h = (Extends-refl (IsQuestion en) w.sent, λ h. cc)
  lift-Refuses stuck k w h = (Extends-refl (IsQuestion en) w.sent, λ h. cc)

  answer-Refuses :
      (before : List Bytes) (r : Outcome TutuConfig × World) (k : TutuConfig → Net (Unit {0}))
      → Extends (IsQuestion en) before r.1.sent
      → ((cfg : TutuConfig) → r.0 ≡ ok cfg → k cfg ≡ lift (err Error.wrong_mode))
      → Extends (IsQuestion en) before (and_then r k).1.sent × ((and_then r k).0 ≢ ok tt)
  answer-Refuses before (ok cfg, w) k h wrong = rw (wrong cfg refl, and_then) (h, λ e. cc)
  answer-Refuses before (err e, w) k h wrong = (h, λ e. cc)
  answer-Refuses before (panic, w) k h wrong = (h, λ e. cc)
  answer-Refuses before (blocked, w) k h wrong = (h, λ e. cc)
  answer-Refuses before (stuck, w) k h wrong = (h, λ e. cc)

  module _ (flags : GlobalFlags) (m : UidMap) (lookup : Bytes → Option (List IpAddr)) where
    config-Refuses :
        (k : TutuConfig → Net (Unit {0})) (w : World)
        → ((cfg : TutuConfig)
            → (get_config en flags m lookup w).0 ≡ ok cfg
            → k cfg ≡ lift (err Error.wrong_mode))
        → Refuses (λ v. and_then (get_config en flags m lookup v) k) w
    config-Refuses k w wrong =
        answer-Refuses w.sent (get_config en flags m lookup w) k
          (receive_struct-Holds (sends_closed (IsQuestion en) en of_controller)
            (tutu_config_layout en) tutu_cmd_get_config tutu_attr_config none
            (λ f id seq pid. of_module id f seq pid tutu_cmd_get_config refl) w)
          wrong

    -- On a module that does not say that it is in client mode, `client-add` changes nothing: whatever its
    -- arguments are and whatever the kernel answers, it does not succeed, and every datagram that it sends
    -- asks the controller for the number of the module's family, or the module for what it knows.
    pub cmd_client_add-Refuses :
        (args : List Bytes) (w : World)
        → ((cfg : TutuConfig) → (get_config en flags m lookup w).0 ≡ ok cfg → cfg.is_server ≢ 0)
        → Refuses (cmd_client_add en flags m lookup args) w
    unfolding cmd_client_add
    cmd_client_add-Refuses args w server =
        lift-Refuses (parse_options m client_add_words args nothing_set) _ w (λ o.
          if-Refuses (o.address =b [] || o.port == 0 || not o.uid_set) Error.incomplete _ w (
            config-Refuses
              (λ cfg.
                if not (cfg.is_server == 0)
                then lift (err Error.wrong_mode)
                else add_peer en flags m lookup o)
              w (λ cfg e. rw (==-false cfg.is_server 0 (server cfg e)) refl)))

    -- On a module that does not say that it is in server mode, `server-add` changes nothing: whatever its
    -- arguments are and whatever the kernel answers, it does not succeed, and every datagram that it sends
    -- asks the controller for the number of the module's family, or the module for what it knows.
    pub cmd_server_add-Refuses :
        (args : List Bytes) (w : World)
        → ((cfg : TutuConfig) → (get_config en flags m lookup w).0 ≡ ok cfg → cfg.is_server ≡ 0)
        → Refuses (cmd_server_add en flags m lookup args) w
    unfolding cmd_server_add
    cmd_server_add-Refuses args w client =
        lift-Refuses (parse_options m server_add_words args nothing_set) _ w (λ o.
          if-Refuses (not o.uid_set || o.address =b [] || o.port == 0) Error.incomplete _ w (
            config-Refuses
              (λ cfg.
                if cfg.is_server == 0
                then lift (err Error.wrong_mode)
                else add_user en flags m lookup o)
              w
              (λ cfg e.
                let is_client : (cfg.is_server == 0) ≡ true = ground (arith, client cfg e) in
                ap (λ b. if b then lift (err Error.wrong_mode) else add_user en flags m lookup o)
                  is_client)))
