-- ===== src/Provisioning/Runs.antt =====
-- What holds after every sequence of calls.
use diy_ebook.Prelude.{
  ℕ, ◌≤◌, ◌≡◌, ◌⊎◌, inl, refl, arith, Bool, true, false, List, [], ◌∷◌, length, ◌==◌, ◌||◌, not,
}
use diy_ebook.Provisioning.{
  ProvisioningStatus, idle, receiving, committable, connecting, provisioned, failed,
  ProvisioningState, reset, is_filled, set_ssid, set_passphrase, set_device_name, set_pairing_token,
  started, begin_commit, commit_succeeded, commit_failed, persist_did_fail,
}

-- The calls that the Bluetooth service and the Wi-Fi driver make.
pub data Call : Type 0 where
  ssid_call passphrase_call name_call token_call : List ℕ → Call
  commit_call succeeded_call failed_call persist_call reset_call : Call

unfoldable pub step : Call → ProvisioningState → ProvisioningState
unfolding set_ssid set_passphrase set_device_name set_pairing_token begin_commit commit_succeeded
    commit_failed persist_did_fail
step (ssid_call text) s = set_ssid text s
step (passphrase_call text) s = set_passphrase text s
step (name_call text) s = set_device_name text s
step (token_call text) s = set_pairing_token text s
step commit_call s = begin_commit s
step succeeded_call s = commit_succeeded s
step failed_call s = commit_failed s
step persist_call s = persist_did_fail s
step reset_call s = reset

unfoldable pub run_calls : List Call → ProvisioningState → ProvisioningState
unfolding step
run_calls [] s = s
run_calls (call ∷ calls) s = run_calls calls (step call s)

-- A connection may be tried, or is being tried.
abbrev pub needs_ssid : ProvisioningStatus → Bool
needs_ssid committable = true
needs_ssid connecting = true
needs_ssid _ = false

pub record IsSound (s : ProvisioningState) : Type 0 where
  pub ssid_fits : length s.ssid ≤ 32
  pub passphrase_fits : (length s.passphrase ≡ 0) ⊎ (8 ≤ length s.passphrase)
  pub passphrase_bound : length s.passphrase ≤ 63
  pub name_fits : length s.device_name ≤ 31
  pub token_fits : length s.pairing_token ≤ 64
  pub has_ssid : (not (needs_ssid s.status) || is_filled s.ssid) ≡ true

filled : (text : List ℕ) → (length text == 0) ≡ false → is_filled text ≡ true
filled [] h = ground arith
filled (c ∷ cs) h = refl

started-needs :
    (status : ProvisioningStatus) (b : Bool)
    → (not (needs_ssid status) || b) ≡ true
    → (not (needs_ssid (started status)) || b) ≡ true
started-needs idle b h = refl
started-needs receiving b h = h
started-needs committable b h = h
started-needs connecting b h = h
started-needs provisioned b h = h
started-needs failed b h = h

reset-IsSound : IsSound reset
reset-IsSound = record {
  ssid_fits = omega arith;
  passphrase_fits = inl refl;
  passphrase_bound = omega arith;
  name_fits = omega arith;
  token_fits = omega arith;
  has_ssid = refl;
}

set_ssid-IsSound : (text : List ℕ) (s : ProvisioningState) → IsSound s → IsSound (set_ssid text s)
unfolding set_ssid
set_ssid-IsSound text s h = record {
  ssid_fits = ground (arith, h.ssid_fits);
  passphrase_fits = ground (arith, h.passphrase_fits);
  passphrase_bound = ground (arith, h.passphrase_bound);
  name_fits = ground (arith, h.name_fits);
  token_fits = ground (arith, h.token_fits);
  has_ssid = ground (arith, h.has_ssid, filled text);
}

set_passphrase-IsSound :
    (text : List ℕ) (s : ProvisioningState) → IsSound s → IsSound (set_passphrase text s)
unfolding set_passphrase
set_passphrase-IsSound text s h = record {
  ssid_fits = ground (arith, h.ssid_fits);
  passphrase_fits = ground (arith, h.passphrase_fits);
  passphrase_bound = ground (arith, h.passphrase_bound);
  name_fits = ground (arith, h.name_fits);
  token_fits = ground (arith, h.token_fits);
  has_ssid = ground (arith, h.has_ssid);
}

set_device_name-IsSound :
    (text : List ℕ) (s : ProvisioningState) → IsSound s → IsSound (set_device_name text s)
unfolding set_device_name
set_device_name-IsSound text s h = record {
  ssid_fits = ground (arith, h.ssid_fits);
  passphrase_fits = ground (arith, h.passphrase_fits);
  passphrase_bound = ground (arith, h.passphrase_bound);
  name_fits = ground (arith, h.name_fits);
  token_fits = ground (arith, h.token_fits);
  has_ssid = ground (arith, h.has_ssid, started-needs s.status (is_filled s.ssid));
}

set_pairing_token-IsSound :
    (text : List ℕ) (s : ProvisioningState) → IsSound s → IsSound (set_pairing_token text s)
unfolding set_pairing_token
set_pairing_token-IsSound text s h = record {
  ssid_fits = ground (arith, h.ssid_fits);
  passphrase_fits = ground (arith, h.passphrase_fits);
  passphrase_bound = ground (arith, h.passphrase_bound);
  name_fits = ground (arith, h.name_fits);
  token_fits = ground (arith, h.token_fits);
  has_ssid = ground (arith, h.has_ssid, started-needs s.status (is_filled s.ssid));
}

begin_commit-IsSound : (s : ProvisioningState) → IsSound s → IsSound (begin_commit s)
unfolding begin_commit
begin_commit-IsSound s h = record {
  ssid_fits = ground (arith, h.ssid_fits);
  passphrase_fits = ground (arith, h.passphrase_fits);
  passphrase_bound = ground (arith, h.passphrase_bound);
  name_fits = ground (arith, h.name_fits);
  token_fits = ground (arith, h.token_fits);
  has_ssid = ground (arith, h.has_ssid);
}

step-IsSound : (call : Call) (s : ProvisioningState) → IsSound s → IsSound (step call s)
unfolding step commit_succeeded commit_failed persist_did_fail
step-IsSound (ssid_call text) s h = set_ssid-IsSound text s h
step-IsSound (passphrase_call text) s h = set_passphrase-IsSound text s h
step-IsSound (name_call text) s h = set_device_name-IsSound text s h
step-IsSound (token_call text) s h = set_pairing_token-IsSound text s h
step-IsSound commit_call s h = begin_commit-IsSound s h
step-IsSound succeeded_call s h = record {
  ssid_fits = h.ssid_fits;
  passphrase_fits = h.passphrase_fits;
  passphrase_bound = h.passphrase_bound;
  name_fits = h.name_fits;
  token_fits = h.token_fits;
  has_ssid = refl;
}
step-IsSound failed_call s h = record {
  ssid_fits = h.ssid_fits;
  passphrase_fits = h.passphrase_fits;
  passphrase_bound = h.passphrase_bound;
  name_fits = h.name_fits;
  token_fits = h.token_fits;
  has_ssid = refl;
}
step-IsSound persist_call s h = record {
  ssid_fits = h.ssid_fits;
  passphrase_fits = h.passphrase_fits;
  passphrase_bound = h.passphrase_bound;
  name_fits = h.name_fits;
  token_fits = h.token_fits;
  has_ssid = refl;
}
step-IsSound reset_call s h = reset-IsSound

run_calls-IsSound_from :
    (calls : List Call) (s : ProvisioningState) → IsSound s → IsSound (run_calls calls s)
unfolding run_calls
run_calls-IsSound_from [] s h = h
run_calls-IsSound_from (call ∷ calls) s h =
    run_calls-IsSound_from calls (step call s) (step-IsSound call s h)

-- After every sequence of calls from the initial state the fields are within their limits, a
-- passphrase that is not empty has at least 8 bytes, and a state that is ready or connecting has a
-- network name.
pub run_calls-IsSound : (calls : List Call) → IsSound (run_calls calls reset)
run_calls-IsSound calls = run_calls-IsSound_from calls reset reset-IsSound
