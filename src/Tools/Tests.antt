-- ===== src/Tools/Tests.antt =====
-- pkg/tools on small inputs.
use chaosblade_box_agent.Prelude.{ℕ, ◌≡◌, refl, Bool, true, false, some, List, [], ◌∷◌, leb}
use chaosblade_box_agent.Prelude.{none, inr}
use chaosblade_box_agent.Prelude.Text.{trim_right}
use chaosblade_box_agent.Tools.Record.{Disk, record_application_to_file, read_app_info_from_file}
use chaosblade_box_agent.Tools.Record.RoundTrip.{lacks, read_app_info-record_application}
use chaosblade_box_agent.Tools.LimitedList.{LimitedList, new_limited_list, put_all, foreach_reverse}
use chaosblade_box_agent.Tools.LimitedList.History.{put_all-new_limited_list, newest}

abbrev three : LimitedList ℕ
three = record { cap = 3; list = [] }

three_new : new_limited_list 3 ≡ some three
unfolding new_limited_list
three_new = refl

put_all-new_limited_list_example :
    (put_all three (1 ∷ 2 ∷ 3 ∷ 4 ∷ 5 ∷ [])).list ≡ newest 3 (1 ∷ 2 ∷ 3 ∷ 4 ∷ 5 ∷ [])
put_all-new_limited_list_example =
    put_all-new_limited_list 3 three (1 ∷ 2 ∷ 3 ∷ 4 ∷ 5 ∷ []) three_new

three_newest : newest {A = ℕ} 3 (1 ∷ 2 ∷ 3 ∷ 4 ∷ 5 ∷ []) ≡ 3 ∷ 4 ∷ 5 ∷ []
three_newest = refl

abbrev numbers : LimitedList ℕ
numbers = record { cap = 4; list = 1 ∷ 2 ∷ 7 ∷ 3 ∷ [] }

-- collects what it sees, and goes wrong at a number above five
abbrev collect : List ℕ → ℕ → List ℕ × Bool
collect seen n = (n ∷ seen, leb 6 n)

foreach_reverse_test : foreach_reverse numbers collect true [] ≡ 7 ∷ 3 ∷ []
unfolding foreach_reverse
foreach_reverse_test = refl

abbrev good_disk : Disk
good_disk = record {
  open_error = λ path. none;
  write = λ text. (text, none);
  overwrite = λ old text. text;
  read_error = λ path. none;
  app_file = "/agent/.chaos.app";
  cert_file = "/root/.chaos.cert";
}

clean_texts :
    (trim_right "my shop" ≡ "my shop")
    × (trim_right "web=1" ≡ "web=1")
    × (lacks b'\n' "my shop" ≡ true)
    × (lacks b'\n' "web=1" ≡ true)
unfolding trim_right lacks
clean_texts = (refl, refl, refl, refl)

read_app_info-record_application_example :
    let (files, err) = record_application_to_file good_disk false [] "my shop" "web=1" true in
    (err ≡ none) × (read_app_info_from_file good_disk files ≡ inr ("my shop", "web=1"))
read_app_info-record_application_example =
    read_app_info-record_application good_disk false [] "my shop" "web=1" refl (λ text. refl)
      (λ text. refl) refl clean_texts.0 clean_texts.1 clean_texts.2 clean_texts.3
