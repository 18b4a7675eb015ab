-- ===== src/Provisioning/StatusJson/Length.antt =====
-- The room that ProvisioningState::writeStatusJson of firmware/ble/provisioning_state.cpp needs, and
-- that publishStatus of firmware/drivers/net/ble_provisioning.cpp gives it.
use diy_ebook.Prelude.{
  ℕ, ◌+◌, ◌≤◌, ◌≡◌, refl, ap, ◌∙◌, arith, Bool, true, false, none, List, [], ◌∷◌, ◌++◌, length,
  length-append, ltb, if◌then◌else◌, codes, lt→ltb,
}
use diy_ebook.Json.Written.{Call, run, run_all, call_text, comma_after, text_of, escapes, escape}
use diy_ebook.Json.Refines.{run_all-new_writer}
use diy_ebook.Json.Fields.{Value, Field, write_object, field_calls, field_call, plain_text}
use diy_ebook.Json.Find.{escapes-plain}
use diy_ebook.Provisioning.{
  ProvisioningStatus, ProvisioningError, ProvisioningState, idle, receiving, committable,
  connecting, provisioned, failed, ok, ssid_too_long, ssid_empty, passphrase_too_short,
  passphrase_too_long, name_too_long, token_too_long, not_ready, connect_failed, persist_failed,
  status_name, error_name, is_filled,
}
use diy_ebook.Provisioning.Runs.{IsSound}
use diy_ebook.Provisioning.StatusJson.{
  status_json, write_status_json, status_capacity, publish_status,
}

abbrev status_fields : ProvisioningState → List Field
status_fields s =
    (codes "status", Value.string (status_name s.status))
    ∷ (codes "error", Value.string (error_name s.last_error))
    ∷ (codes "ssid", Value.string s.ssid)
    ∷ (codes "deviceName", Value.string s.device_name)
    ∷ (codes "hasPassphrase", Value.truth (is_filled s.passphrase))
    ∷ (codes "hasPairingToken", Value.truth (is_filled s.pairing_token))
    ∷ (codes "ready", Value.truth (is_filled s.ssid))
    ∷ []

pub status_json-eq-write_object :
    (s : ProvisioningState) (capacity : ℕ)
    → status_json s capacity ≡ write_object (status_fields s) capacity
unfolding status_json write_object run_all run field_calls field_call
status_json-eq-write_object s capacity = refl

-- The lengths of the parts.
abbrev quoted_length : List ℕ → List ℕ → ℕ
quoted_length key value = length (escapes key) + length (escapes value) + 5

string_length :
    (key value : List ℕ)
    → (length (call_text (Call.string key value) false) ≡ quoted_length key value)
      × (length (call_text (Call.string key value) true) ≡ quoted_length key value + 1)
unfolding call_text
string_length key value =
    let k = escapes key in
    let q : List ℕ = b'"' ∷ [] in
    let v : List ℕ = b'"' ∷ escapes value ++ q in
    let parts : length (((k ++ q) ++ b':' ∷ []) ++ v) + 1 ≡ quoted_length key value = omega (
      arith,
      length-append {0} k q,
      length-append {0} (k ++ q) (b':' ∷ []),
      length-append {0} ((k ++ q) ++ b':' ∷ []) v,
      length-append {0} (escapes value) q,
    ) in
    (omega (arith, parts), omega (arith, parts))

abbrev word_length : Bool → ℕ
word_length word = if word then 4 else 5

truth_length :
    (key : List ℕ) (word : Bool)
    → length (call_text (Call.truth key word) true) ≡ length (escapes key) + 4 + word_length word
unfolding call_text
truth_length key word =
    let k = escapes key in
    let text = if word then codes "true" else codes "false" in
    omega (
      arith,
      length-append {0} k (b'"' ∷ []),
      length-append {0} (k ++ b'"' ∷ []) (b':' ∷ []),
      length-append {0} ((k ++ b'"' ∷ []) ++ b':' ∷ []) text,
      word_text word,
    )
  where
    word_text : (b : Bool) → length (if b then codes "true" else codes "false") ≡ word_length b
    word_text true = refl
    word_text false = refl

length-text_of :
    (c : Call) (cs : List Call) (due : Bool)
    → length (text_of (c ∷ cs) due) ≡ length (call_text c due) + length (text_of cs (comma_after c))
unfolding text_of
length-text_of c cs due = length-append (call_text c due) (text_of cs (comma_after c))

status_length :
    (status : ProvisioningStatus)
    → (4 ≤ length (escapes (status_name status))) × (length (escapes (status_name status)) ≤ 11)
unfolding status_name escapes escape
status_length idle = (omega arith, omega arith)
status_length receiving = (omega arith, omega arith)
status_length committable = (omega arith, omega arith)
status_length connecting = (omega arith, omega arith)
status_length provisioned = (omega arith, omega arith)
status_length failed = (omega arith, omega arith)

error_length : (error : ProvisioningError) → length (escapes (error_name error)) ≤ 20
unfolding error_name escapes escape
error_length ok = omega arith
error_length ssid_too_long = omega arith
error_length ssid_empty = omega arith
error_length passphrase_too_short = omega arith
error_length passphrase_too_long = omega arith
error_length name_too_long = omega arith
error_length token_too_long = omega arith
error_length not_ready = omega arith
error_length connect_failed = omega arith
error_length persist_failed = omega arith

-- The calls, from the last to the first.
abbrev flag_calls : ProvisioningState → List Call
flag_calls s =
    Call.truth (codes "hasPassphrase") (is_filled s.passphrase)
    ∷ Call.truth (codes "hasPairingToken") (is_filled s.pairing_token)
    ∷ Call.truth (codes "ready") (is_filled s.ssid)
    ∷ Call.end_of_object
    ∷ []

abbrev name_calls : ProvisioningState → List Call
name_calls s =
    Call.string (codes "ssid") s.ssid
    ∷ Call.string (codes "deviceName") s.device_name
    ∷ flag_calls s

abbrev document_calls : ProvisioningState → List Call
document_calls s =
    Call.object
    ∷ Call.string (codes "status") (status_name s.status)
    ∷ Call.string (codes "error") (error_name s.last_error)
    ∷ name_calls s

flags_length :
    (s : ProvisioningState)
    → length (text_of (flag_calls s) true)
      ≡ 46
        + word_length (is_filled s.passphrase)
        + word_length (is_filled s.pairing_token)
        + word_length (is_filled s.ssid)
unfolding comma_after escapes escape
flags_length s =
    let last : length (text_of (Call.end_of_object ∷ []) true) ≡ 1 =
      unfold text_of in unfold call_text in refl in
    let ready = Call.truth (codes "ready") (is_filled s.ssid) in
    let token = Call.truth (codes "hasPairingToken") (is_filled s.pairing_token) in
    let passphrase = Call.truth (codes "hasPassphrase") (is_filled s.passphrase) in
    let three = Call.end_of_object ∷ [] in
    omega (
      arith,
      last,
      length-text_of ready three true,
      length-text_of token (ready ∷ three) true,
      length-text_of passphrase (token ∷ ready ∷ three) true,
      truth_length (codes "ready") (is_filled s.ssid),
      truth_length (codes "hasPairingToken") (is_filled s.pairing_token),
      truth_length (codes "hasPassphrase") (is_filled s.passphrase),
    )

names_length :
    (s : ProvisioningState)
    → plain_text s.ssid ≡ true
    → plain_text s.device_name ≡ true
    → length (text_of (name_calls s) true)
      ≡ 26 + length s.ssid + length s.device_name + length (text_of (flag_calls s) true)
unfolding comma_after escapes escape
names_length s plain_ssid plain_name =
    let ssid = Call.string (codes "ssid") s.ssid in
    let name = Call.string (codes "deviceName") s.device_name in
    omega (
      arith,
      length-text_of ssid (name ∷ flag_calls s) true,
      length-text_of name (flag_calls s) true,
      (string_length (codes "ssid") s.ssid).1,
      (string_length (codes "deviceName") s.device_name).1,
      ap (λ (l : List ℕ). length l) (escapes-plain s.ssid plain_ssid),
      ap (λ (l : List ℕ). length l) (escapes-plain s.device_name plain_name),
    )

abbrev document_length : ProvisioningState → ℕ
document_length s =
    95
    + length (escapes (status_name s.status))
    + length (escapes (error_name s.last_error))
    + length s.ssid
    + length s.device_name
    + word_length (is_filled s.passphrase)
    + word_length (is_filled s.pairing_token)
    + word_length (is_filled s.ssid)

length-document :
    (s : ProvisioningState)
    → plain_text s.ssid ≡ true
    → plain_text s.device_name ≡ true
    → length (text_of (document_calls s) false) ≡ document_length s
unfolding comma_after
length-document s plain_ssid plain_name =
    let status = Call.string (codes "status") (status_name s.status) in
    let error = Call.string (codes "error") (error_name s.last_error) in
    let opening : length (call_text Call.object false) ≡ 1 = unfold call_text in refl in
    let status_key : length (escapes (codes "status")) ≡ 6 =
      unfold escapes in unfold escape in refl in
    let error_key : length (escapes (codes "error")) ≡ 5 =
      unfold escapes in unfold escape in refl in
    omega (
      arith,
      opening,
      status_key,
      error_key,
      length-text_of Call.object (status ∷ error ∷ name_calls s) false,
      length-text_of status (error ∷ name_calls s) false,
      length-text_of error (name_calls s) true,
      (string_length (codes "status") (status_name s.status)).0,
      (string_length (codes "error") (error_name s.last_error)).1,
      names_length s plain_ssid plain_name,
      flags_length s,
    )

status_json-ok :
    (s : ProvisioningState) (capacity : ℕ)
    → plain_text s.ssid ≡ true
    → plain_text s.device_name ≡ true
    → (status_json s capacity).ok ≡ ltb (document_length s) capacity
unfolding status_json run_all run
status_json-ok s capacity plain_ssid plain_name =
    (run_all-new_writer (document_calls s) capacity).0
    ∙ ap (λ (n : ℕ). ltb n capacity) (length-document s plain_ssid plain_name)

word_length_bounds : (b : Bool) → (4 ≤ word_length b) × (word_length b ≤ 5)
word_length_bounds true = (omega arith, omega arith)
word_length_bounds false = (omega arith, omega arith)

-- In every state whose fields are within their limits, where the network's name and the device's
-- name need no escapes, the status document is written whole into a buffer of 205 bytes.
pub status_json-fits :
    (s : ProvisioningState)
    → IsSound s
    → plain_text s.ssid ≡ true
    → plain_text s.device_name ≡ true
    → (status_json s 205).ok ≡ true
status_json-fits s sound plain_ssid plain_name =
    status_json-ok s 205 plain_ssid plain_name
    ∙ lt→ltb (document_length s) 205 (
        omega (
          arith,
          (status_length s.status).1,
          error_length s.last_error,
          sound.ssid_fits,
          sound.name_fits,
          (word_length_bounds (is_filled s.passphrase)).1,
          (word_length_bounds (is_filled s.pairing_token)).1,
          (word_length_bounds (is_filled s.ssid)).1,
        ))

too_long : (n : ℕ) → 192 ≤ n → ltb n status_capacity ≡ false
too_long n h = ground arith

-- With a network's name of 32 and a device's name of 31 characters that need no escapes, after a
-- passphrase that was too short, the status document is not published.
pub publish_status-lost :
    (s : ProvisioningState)
    → plain_text s.ssid ≡ true
    → plain_text s.device_name ≡ true
    → length s.ssid ≡ 32
    → length s.device_name ≡ 31
    → s.last_error ≡ passphrase_too_short
    → publish_status s ≡ none
unfolding publish_status write_status_json
publish_status-lost s plain_ssid plain_name ssid name error =
    let twenty : length (escapes (error_name s.last_error)) ≡ 20 =
      ap (λ (e : ProvisioningError). length (escapes (error_name e))) error
      ∙ unfold escapes in unfold escape in unfold error_name in refl in
    let long : 192 ≤ document_length s = omega (
      arith,
      twenty,
      (status_length s.status).0,
      (word_length_bounds (is_filled s.passphrase)).0,
      (word_length_bounds (is_filled s.pairing_token)).0,
      (word_length_bounds (is_filled s.ssid)).0,
    ) in
    let refused : (status_json s status_capacity).ok ≡ false =
      status_json-ok s status_capacity plain_ssid plain_name ∙ too_long (document_length s) long in
    rw refused refl
