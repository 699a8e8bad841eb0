-- ===== src/Iot/Telemetry/Replay.antt =====
-- No message that `ingest` of app/iot/telemetry.py accepted is accepted again.
use mathlib.Core.Path.{subst}
use sara_omega.Prelude.{
  ℕ, String, ◌≡◌, refl, ap, sym, ◌∙◌, ◌≢◌, Bool, true, false, List, [], ◌∷◌, Option, none, some,
  eq_iff, if◌then◌else◌, arith,
}
use sara_omega.Prelude.Dict.{lookup}
use sara_omega.Prelude.Attempt.{Attempt, returned, raised}
use sara_omega.Iot.Telemetry.{
  Sender, Envelope, Limits, IotStore, fail, is_seen, add_replay, admit, authenticate_found,
  authenticate_telemetry, stored, ingest,
}
use sara_omega.Iot.Telemetry.Accepted.{
  IsAdmitted, authenticate_telemetry-IsAdmitted_iff, found_iff, admitted-returned,
}

fail-is_seen :
    (l : Limits) (device kind : String) (now : ℕ) (s : IotStore) (k m : String)
    → is_seen k m (fail l device kind now s) ≡ is_seen k m s
unfolding fail is_seen
fail-is_seen l device kind now s k m = ground arith

fail-devices :
    (l : Limits) (device kind : String) (now : ℕ) (s : IotStore)
    → (fail l device kind now s).devices ≡ s.devices
unfolding fail
fail-devices l device kind now s = ground arith

-- A message that was seen is seen afterwards, and the devices are the same.
record KeepsSeen (k m : String) (s : IotStore) (x : Attempt Sender × IotStore) : Type 0 where
  kept : is_seen k m s ≡ true → is_seen k m x.1 ≡ true
  same_devices : x.1.devices ≡ s.devices

KeepsSeen-if :
    (k m : String) (s : IotStore) (b : Bool) (x y : Attempt Sender × IotStore)
    → KeepsSeen k m s x
    → KeepsSeen k m s y
    → KeepsSeen k m s (if b then x else y)
KeepsSeen-if k m s true x y p q = p
KeepsSeen-if k m s false x y p q = q

stay-KeepsSeen : (k m : String) (s : IotStore) (r : Attempt Sender) → KeepsSeen k m s (r, s)
stay-KeepsSeen k m s r = record { kept = λ h. h; same_devices = refl }

fail-KeepsSeen :
    (k m : String) (s : IotStore) (r : Attempt Sender) (l : Limits) (device kind : String) (now : ℕ)
    → KeepsSeen k m s (r, fail l device kind now s)
fail-KeepsSeen k m s r l device kind now = record {
  kept = λ h. rw (fail-is_seen l device kind now s k m) h;
  same_devices = fail-devices l device kind now s;
}

add-KeepsSeen :
    (k m : String) (s : IotStore) (r : Attempt Sender) (device message : String) (now : ℕ)
    → KeepsSeen k m s (r, add_replay device message now s)
unfolding is_seen
add-KeepsSeen k m s r device message now = record {
  kept = λ h. ground (arith, h);
  same_devices = refl;
}

-- A device's row is found under its own id.
abbrev pub IsKeyed : IotStore → Type 0
IsKeyed s = (k : String) (d : Sender) → lookup k s.devices ≡ some d → d.device_id ≡ k

module _ (verify_secret : String → String → Bool) (l : Limits) where
  admit-KeepsSeen :
      (e : Envelope) (secret : String) (now : ℕ) (d : Sender) (s : IotStore) (k m : String)
      → KeepsSeen k m s (admit verify_secret l e secret now d s)
  unfolding admit
  admit-KeepsSeen e secret now d s k m =
      search (KeepsSeen-if, stay-KeepsSeen, fail-KeepsSeen, add-KeepsSeen) depth 12

  found-KeepsSeen :
      (e : Envelope) (secret : String) (now : ℕ) (o : Option Sender) (s : IotStore) (k m : String)
      → KeepsSeen k m s (authenticate_found verify_secret l e secret now o s)
  unfolding authenticate_found
  found-KeepsSeen e secret now none s k m = search (fail-KeepsSeen)
  found-KeepsSeen e secret now (some d) s k m =
      search (KeepsSeen-if, fail-KeepsSeen, admit-KeepsSeen)

  stored-seen :
      (e : Envelope) (x : Attempt Sender × IotStore) (k m : String)
      → is_seen k m (stored verify_secret l e x).1 ≡ is_seen k m x.1
  unfolding is_seen stored
  stored-seen e (returned d, s) k m = refl
  stored-seen e (raised x, s) k m = refl

  ingest-seen :
      (e : Envelope) (secret : String) (now : ℕ) (s : IotStore) (k m : String)
      → is_seen k m s ≡ true
      → is_seen k m (ingest verify_secret l e secret now s).1 ≡ true
  unfolding ingest authenticate_telemetry
  ingest-seen e secret now s k m h =
      let t = found-KeepsSeen e secret now (lookup e.device_id s.devices) s k m in
      rw
        (stored-seen e
          (authenticate_found verify_secret l e secret now (lookup e.device_id s.devices) s) k m)
        (t.kept h)

  -- Envelopes with their secrets and times, one after the other.
  unfoldable pub ingest_all : List (Envelope × String × ℕ) → IotStore → IotStore
  unfolding ingest
  ingest_all [] s = s
  ingest_all (c ∷ cs) s = ingest_all cs (ingest verify_secret l c.0 c.1 c.2 s).1

  stored-devices :
      (e : Envelope) (x : Attempt Sender × IotStore)
      → (stored verify_secret l e x).1.devices ≡ x.1.devices
  unfolding stored
  stored-devices e (returned d, s) = refl
  stored-devices e (raised x, s) = refl

  ingest-devices :
      (e : Envelope) (secret : String) (now : ℕ) (s : IotStore)
      → (ingest verify_secret l e secret now s).1.devices ≡ s.devices
  unfolding ingest authenticate_telemetry
  ingest-devices e secret now s =
      let x = authenticate_found verify_secret l e secret now (lookup e.device_id s.devices) s in
      stored-devices e x
      ∙ (found-KeepsSeen e secret now (lookup e.device_id s.devices) s "" "").same_devices

  ingest_all-seen :
      (cs : List (Envelope × String × ℕ)) (s : IotStore) (k m : String)
      → is_seen k m s ≡ true
      → is_seen k m (ingest_all cs s) ≡ true
  unfolding ingest_all
  ingest_all-seen [] s k m h = h
  ingest_all-seen (c ∷ cs) s k m h = ingest_all-seen cs _ k m (ingest-seen c.0 c.1 c.2 s k m h)

  ingest_all-devices :
      (cs : List (Envelope × String × ℕ)) (s : IotStore) → (ingest_all cs s).devices ≡ s.devices
  unfolding ingest_all
  ingest_all-devices [] s = refl
  ingest_all-devices (c ∷ cs) s = ingest_all-devices cs _ ∙ ingest-devices c.0 c.1 c.2 s

  stored_inv :
      (e : Envelope) (x : Attempt Sender × IotStore)
      → (stored verify_secret l e x).0 ≡ true
      → (d : Sender) × (x.0 ≡ returned d)
  unfolding stored
  stored_inv e (returned d, s) h = (d, refl)
  stored_inv e (raised x, s) h = cc

  ingest-IsAdmitted :
      (e : Envelope) (secret : String) (now : ℕ) (s : IotStore)
      → (ingest verify_secret l e secret now s).0 ≡ true
      → (d : Sender) × IsAdmitted verify_secret l e secret now d s
  unfolding ingest
  ingest-IsAdmitted e secret now s h =
      let (d, r) = stored_inv e (authenticate_telemetry verify_secret l e secret now s) h in
      (d, (authenticate_telemetry-IsAdmitted_iff verify_secret l e secret now d s).0 r)

  admit-adds :
      (e : Envelope) (secret : String) (now : ℕ) (d d' : Sender) (s : IotStore)
      → (admit verify_secret l e secret now d s).0 ≡ returned d'
      → is_seen d.device_id e.message_id (admit verify_secret l e secret now d s).1 ≡ true
  unfolding admit is_seen
  admit-adds e secret now d d' s h =
      ground (arith, eq_iff d.device_id d.device_id, eq_iff e.message_id e.message_id)

  found-admit :
      (e : Envelope) (secret : String) (now : ℕ) (d : Sender) (s : IotStore)
      → d.enabled ≡ true
      → authenticate_found verify_secret l e secret now (some d) s
        ≡ admit verify_secret l e secret now d s
  unfolding authenticate_found
  found-admit e secret now d s on = rw on refl

  admit-now_seen :
      (e : Envelope) (secret : String) (now : ℕ) (d : Sender) (s : IotStore)
      → IsAdmitted verify_secret l e secret now d s
      → is_seen d.device_id e.message_id (ingest verify_secret l e secret now s).1 ≡ true
  unfolding ingest authenticate_telemetry
  admit-now_seen e secret now d s a =
      let found =
        ap (λ o. authenticate_found verify_secret l e secret now o s) a.registered
        ∙ found-admit e secret now d s a.enabled in
      let accepted =
        ((found_iff verify_secret l e secret now d d s).0
          (admitted-returned verify_secret l e secret now d s a)).1 in
      stored-seen e
        (authenticate_found verify_secret l e secret now (lookup e.device_id s.devices) s)
        d.device_id e.message_id
      ∙ ap (λ x. is_seen d.device_id e.message_id x.1) found
      ∙ admit-adds e secret now d d s accepted

  -- Where each device's row has the id that it is stored under: a message that was accepted from a
  -- device is never accepted from it again, whatever envelopes come in between.
  pub ingest-no_replay :
      (e e' : Envelope) (secret secret' : String) (now now' : ℕ) (cs : List (Envelope × String × ℕ))
      (s : IotStore)
      → IsKeyed s
      → (ingest verify_secret l e secret now s).0 ≡ true
      → e'.device_id ≡ e.device_id
      → e'.message_id ≡ e.message_id
      → (ingest verify_secret l e' secret' now'
          (ingest_all cs (ingest verify_secret l e secret now s).1)).0
        ≢ true
  ingest-no_replay e e' secret secret' now now' cs s keyed ok same_device same_message again =
      let t = (ingest verify_secret l e secret now s).1 in
      let u = ingest_all cs t in
      let (d, a) = ingest-IsAdmitted e secret now s ok in
      let (d', a') = ingest-IsAdmitted e' secret' now' u again in
      let devices : u.devices ≡ s.devices =
        ingest_all-devices cs t ∙ ingest-devices e secret now s in
      let one = keyed e.device_id d a.registered in
      let two = keyed e'.device_id d' (ap (lookup e'.device_id) (sym devices) ∙ a'.registered) in
      let seen =
        ingest_all-seen cs t d.device_id e.message_id (admit-now_seen e secret now d s a) in
      let id : d'.device_id ≡ d.device_id = two ∙ same_device ∙ sym one in
      let new = subst (λ m. is_seen d'.device_id m u ≡ false) same_message a'.new in
      let old = subst (λ k. is_seen k e.message_id u ≡ false) id new in cc
