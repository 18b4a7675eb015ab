-- ===== src/Witnesses/Small.antt =====
-- The provisioning of the device and the queue of events at concrete inputs.
use diy_ebook.Prelude.{
  refl, List, [], ◌∷◌, codes, ◌≡◌, true, length, none, some, replicate, ℕ, arith,
}
use diy_ebook.Input.Queue.{Queue, Request, serve, serve_list, contents, drop_oldest, store}
use diy_ebook.Input.Queue
use diy_ebook.Input.Queue.Refines.{serve-eq-serve_list}
use diy_ebook.Provisioning.{reset, passphrase_too_short}
use diy_ebook.Provisioning.StatusJson.{status_json, publish_status}
use diy_ebook.Provisioning.StatusJson.Length.{status_json-fits, publish_status-lost}
use diy_ebook.Json.Fields.{plain_text}
use diy_ebook.Provisioning.Runs.{
  Call, ssid_call, name_call, passphrase_call, commit_call, failed_call, run_calls, IsSound,
  run_calls-IsSound,
}

abbrev calls : List Call
calls =
    ssid_call (codes "home")
    ∷ passphrase_call (codes "short")
    ∷ passphrase_call (codes "long enough")
    ∷ commit_call
    ∷ failed_call
    ∷ []

provisioning_example : IsSound (run_calls calls reset)
provisioning_example = run_calls-IsSound calls

ready_plain :
    (plain_text (run_calls calls reset).ssid ≡ true)
    × (plain_text (run_calls calls reset).device_name ≡ true)
unfolding run_calls plain_text
ready_plain = (refl, refl)

status_json-fits_example : (status_json (run_calls calls reset) 205).ok ≡ true
status_json-fits_example =
    status_json-fits (run_calls calls reset) (run_calls-IsSound calls) ready_plain.0 ready_plain.1

-- The longest names, and then a passphrase that is too short.
abbrev long_names : List Call
long_names =
    ssid_call (codes "0123456789abcdef0123456789abcdef")
    ∷ name_call (codes "0123456789abcdef0123456789abcde")
    ∷ passphrase_call (codes "short")
    ∷ []

long_plain :
    (plain_text (run_calls long_names reset).ssid ≡ true)
    × (plain_text (run_calls long_names reset).device_name ≡ true)
unfolding run_calls plain_text
long_plain = (refl, refl)

long_state :
    (length (run_calls long_names reset).ssid ≡ 32)
    × (length (run_calls long_names reset).device_name ≡ 31)
    × ((run_calls long_names reset).last_error ≡ passphrase_too_short)
unfolding run_calls
long_state = (refl, refl, refl)

publish_status-lost_example : publish_status (run_calls long_names reset) ≡ none
publish_status-lost_example =
    publish_status-lost (run_calls long_names reset) long_plain.0 long_plain.1 long_state.0
      long_state.1 long_state.2

abbrev empty_queue : Queue ℕ
empty_queue = record { slots = replicate 16 0; head = 15; count = 0 }

empty_queue-IsValid : Queue.IsValid empty_queue
empty_queue-IsValid = record {
  full_slots = refl;
  head_inside = omega arith;
  count_fits = omega arith;
}

abbrev requests : List (Request ℕ)
requests = Request.pushing 5 ∷ Request.pushing 6 ∷ Request.popping ∷ Request.popping ∷ []

serve_example : serve 0 requests empty_queue ≡ serve_list requests (contents 0 empty_queue)
serve_example = serve-eq-serve_list 0 requests empty_queue empty_queue-IsValid

served : serve 0 requests empty_queue ≡ some 5 ∷ some 6 ∷ []
unfolding serve drop_oldest store
served = refl
