-- ===== src/Provisioning.antt =====
-- firmware/include/net/provisioning_state.h and firmware/ble/provisioning_state.cpp: the fields that
-- a phone sends, and the state of the attempt to connect. Texts hold no NUL character.
pub mod Runs
pub mod StatusJson
use diy_ebook.Prelude.{
  ℕ, Bool, true, false, List, [], ◌∷◌, length, ltb, ◌==◌, ◌&&◌, not, if◌then◌else◌, codes,
}

pub data ProvisioningStatus : Type 0 where
  idle receiving committable connecting provisioned failed : ProvisioningStatus

pub data ProvisioningError : Type 0 where
  ok ssid_too_long ssid_empty passphrase_too_short passphrase_too_long : ProvisioningError
  name_too_long token_too_long not_ready connect_failed persist_failed : ProvisioningError

-- ProvisioningStatusName
unfoldable pub status_name : ProvisioningStatus → List ℕ
status_name idle = codes "idle"
status_name receiving = codes "receiving"
status_name committable = codes "ready"
status_name connecting = codes "connecting"
status_name provisioned = codes "provisioned"
status_name failed = codes "failed"

-- ProvisioningErrorName
unfoldable pub error_name : ProvisioningError → List ℕ
error_name ok = codes "OK"
error_name ssid_too_long = codes "SSID_TOO_LONG"
error_name ssid_empty = codes "SSID_EMPTY"
error_name passphrase_too_short = codes "PASSPHRASE_TOO_SHORT"
error_name passphrase_too_long = codes "PASSPHRASE_TOO_LONG"
error_name name_too_long = codes "NAME_TOO_LONG"
error_name token_too_long = codes "TOKEN_TOO_LONG"
error_name not_ready = codes "NOT_READY"
error_name connect_failed = codes "CONNECT_FAILED"
error_name persist_failed = codes "PERSIST_FAILED"

pub record ProvisioningState : Type 0 where
  pub ssid : List ℕ
  pub passphrase : List ℕ
  pub device_name : List ℕ
  pub pairing_token : List ℕ
  pub status : ProvisioningStatus
  pub last_error : ProvisioningError

abbrev pub reset : ProvisioningState
reset = record {
  ssid = [];
  passphrase = [];
  device_name = [];
  pairing_token = [];
  status = idle;
  last_error = ok;
}

-- ssid_[0] != 0
abbrev pub is_filled : List ℕ → Bool
is_filled [] = false
is_filled (c ∷ cs) = true

abbrev pub refuse : ProvisioningError → ProvisioningState → ProvisioningState
refuse e s = record s { last_error = e }

-- status_ = ready() ? kReady : kReceiving; last_error_ = kOk;
abbrev pub settle : ProvisioningState → ProvisioningState
settle s = record s {
  status = if is_filled s.ssid then committable else receiving;
  last_error = ok;
}

-- if (status_ == kIdle) status_ = kReceiving;
abbrev pub started : ProvisioningStatus → ProvisioningStatus
started idle = receiving
started s = s

unfoldable pub set_ssid : List ℕ → ProvisioningState → ProvisioningState
set_ssid text s =
    if length text == 0
    then refuse ssid_empty s
    else if ltb 32 (length text)
    then refuse ssid_too_long s
    else settle (record s { ssid = text })

unfoldable pub set_passphrase : List ℕ → ProvisioningState → ProvisioningState
set_passphrase text s =
    if ltb 0 (length text) && ltb (length text) 8
    then refuse passphrase_too_short s
    else if ltb 63 (length text)
    then refuse passphrase_too_long s
    else settle (record s { passphrase = text })

unfoldable pub set_device_name : List ℕ → ProvisioningState → ProvisioningState
set_device_name text s =
    if ltb 31 (length text)
    then refuse name_too_long s
    else record s { device_name = text; status = started s.status; last_error = ok }

unfoldable pub set_pairing_token : List ℕ → ProvisioningState → ProvisioningState
set_pairing_token text s =
    if ltb 64 (length text)
    then refuse token_too_long s
    else record s { pairing_token = text; status = started s.status; last_error = ok }

unfoldable pub begin_commit : ProvisioningState → ProvisioningState
begin_commit s =
    if not (is_filled s.ssid)
    then refuse not_ready s
    else record s { status = connecting; last_error = ok }

unfoldable pub commit_succeeded : ProvisioningState → ProvisioningState
commit_succeeded s = record s { status = provisioned; last_error = ok }

unfoldable pub commit_failed : ProvisioningState → ProvisioningState
commit_failed s = record s { status = failed; last_error = connect_failed }

unfoldable pub persist_did_fail : ProvisioningState → ProvisioningState
persist_did_fail s = record s { status = failed; last_error = persist_failed }
