-- ===== src/Tests/Events.antt =====
-- The events of a bridged call.
use gofaxserver.Prelude.{
  ◌≡◌, refl, true, false, none, some, [], ◌∷◌, if◌then◌else◌, ◌==◌, Eq_nat, Eq_text,
}
use gofaxserver.Events.Merging.{Keeps}
use gofaxserver.Model.{blank_result}
use gofaxserver.Events.{
  add_page, add_custom, Event, Session, Reader, add_event, add_bridge_b_leg_event,
}
use gofaxserver.Events.Runs.{Run-Keeps, here, more, a_leg, b_leg}

abbrev reader : Reader
reader = record {
  now = 3;
  atoi = λ s. if s == "2" then some 2 else none;
  split_lines = λ s. s ∷ [];
  lower_trimmed = λ s. s;
}

abbrev fresh : Session
fresh = record {
  result = blank_result;
  bridge = true;
  ecm = false;
  ecm_requested = false;
  remote_id = "";
  local_id = "";
  result_code = 0;
  transfer_rate = 0;
  v17_disabled = false;
  bad_rows = 0;
  longest_bad_row_run = 0;
  encoding = 0;
  encoding_name = "";
  image_size = 0;
  remote_country = "";
  remote_vendor = "";
  remote_model = "";
  trace_file = "";
  result_vars = [];
  bridge_a_leg_t38 = "";
  bridge_b_leg_t38 = "";
}

abbrev page : Event
page h =
    if h == "Event-Name"
    then "CUSTOM"
    else if h == "Event-Subclass"
    then "spandsp::rxfaxpageresult"
    else if h == "Fax-Bad-Rows"
    then "2"
    else ""

abbrev hangup : Event
hangup h =
    if h == "Event-Name"
    then "CHANNEL_HANGUP"
    else if h == "Variable_switch_r_sdp"
    then "m=image 5 udptl t38"
    else ""

abbrev paged : Session
paged = add_event reader page fresh

a_page : paged.result.page_bad_rows ≡ 2 ∷ []
unfolding add_event add_custom add_page
a_page = refl

Run-Keeps_example : Keeps fresh (add_bridge_b_leg_event reader hangup paged)
Run-Keeps_example =
    Run-Keeps fresh (more (more here (a_leg reader page fresh)) (b_leg reader hangup paged))
