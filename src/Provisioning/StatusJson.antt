-- ===== src/Provisioning/StatusJson.antt =====
-- ProvisioningState::writeStatusJson of firmware/ble/provisioning_state.cpp, the document that the
-- phone polls, and its room in publishStatus of firmware/drivers/net/ble_provisioning.cpp.
pub mod Length
use diy_ebook.Prelude.{ℕ, true, Option, none, some, List, length, ◌==◌, if◌then◌else◌, codes}
use diy_ebook.Json.Writer.{JsonWriter, new_writer, begin_object, key_string, key_bool, end_object}
use diy_ebook.Provisioning.{ProvisioningState, ok, status_name, error_name, is_filled}

unfoldable pub status_json : ProvisioningState → ℕ → JsonWriter
status_json s capacity =
    let w1 = begin_object (new_writer true capacity) in
    let w2 = key_string (codes "status") (status_name s.status) w1 in
    let w3 = key_string (codes "error") (error_name s.last_error) w2 in
    let w4 = key_string (codes "ssid") s.ssid w3 in
    let w5 = key_string (codes "deviceName") s.device_name w4 in
    let w6 = key_bool (codes "hasPassphrase") (is_filled s.passphrase) w5 in
    let w7 = key_bool (codes "hasPairingToken") (is_filled s.pairing_token) w6 in
    end_object (key_bool (codes "ready") (is_filled s.ssid) w7)

-- The result: the length of the document, or 0.
unfoldable pub write_status_json : ProvisioningState → ℕ → ℕ
write_status_json s capacity = let w = status_json s capacity in if w.ok then length w.text else 0

-- char json[192]
abbrev pub status_capacity : ℕ
status_capacity = 192

-- What publishStatus sets and notifies; a document that does not fit is not published.
unfoldable pub publish_status : ProvisioningState → Option (List ℕ)
publish_status s =
    if write_status_json s status_capacity == 0
    then none
    else some (status_json s status_capacity).text
