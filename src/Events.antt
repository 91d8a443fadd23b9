-- ===== src/Events.antt =====
-- What the events of a call make of its result (AddEvent, harvestResultVars, detectT38InSDP,
-- harvestBridgeLegT38 and AddBridgeBLegEvent of gofaxlib/faxresult.go).
pub mod Merging
pub mod Runs
use gofaxserver.Prelude.{
  ℕ, suc, String, Bool, false, ◌&&◌, ◌||◌, not, Option, none, some, List, [], ◌∷◌, ◌++◌,
  if◌then◌else◌, ◌==◌, Eq_nat, Eq_text,
}
use gofaxserver.Prelude.Map.{Map, put}
use gofaxserver.Prelude.Text.{has_prefix, contains_text}
use gofaxserver.Model.{FaxResult}
use Prim.Native.String

-- ev.Get, which answers "" for a header that is missing.
abbrev pub Event : Type 0
Event = String → String

-- The fields of FaxResult that the model's record of results leaves out, beside that record. The
-- resolutions of images, which only reach a row of the database, are left out.
pub record Session : Type 0 where
  pub result : FaxResult
  pub bridge : Bool
  pub ecm : Bool
  pub ecm_requested : Bool
  pub remote_id : String
  pub local_id : String
  pub result_code : ℕ
  pub transfer_rate : ℕ
  pub v17_disabled : Bool
  pub bad_rows : ℕ
  pub longest_bad_row_run : ℕ
  pub encoding : ℕ
  pub encoding_name : String
  pub image_size : ℕ
  pub remote_country : String
  pub remote_vendor : String
  pub remote_model : String
  pub trace_file : String
  pub result_vars : Map String String
  pub bridge_a_leg_t38 : String
  pub bridge_b_leg_t38 : String

-- The clock; strconv.Atoi with the conversion of its result, nothing for an error; strings.Split at
-- line ends; and strings.ToLower of strings.TrimSpace.
pub record Reader : Type 0 where
  pub now : ℕ
  pub atoi : String → Option ℕ
  pub split_lines : String → List String
  pub lower_trimmed : String → String

-- A number that is read, or else the one that is there.
abbrev pub or_kept : Option ℕ → ℕ → ℕ
or_kept none n = n
or_kept (some k) n = k

abbrev pub text_or_kept : String → String → String
text_or_kept v old = if v == "" then old else v

-- A switch: the first case whose test holds, or else the default.
unfoldable pub switch {ℓ} : {A : Type ℓ} → List (Bool × A) → A → A
switch [] other = other
switch ((b, x) ∷ cases) other = let rest = switch cases other in if b then x else rest

abbrev pub fax_result_var_names : List String
fax_result_var_names =
    "fax_success" ∷ "fax_result_code" ∷ "fax_result_text" ∷ "fax_filename"
    ∷ "fax_document_transferred_pages" ∷ "fax_document_total_pages" ∷ "fax_image_resolution"
    ∷ "fax_file_image_resolution" ∷ "fax_image_pixel_size" ∷ "fax_file_image_pixel_size"
    ∷ "fax_image_size" ∷ "fax_bad_rows" ∷ "fax_longest_bad_row_run" ∷ "fax_encoding"
    ∷ "fax_encoding_name" ∷ "fax_transfer_rate" ∷ "fax_ecm_used" ∷ "fax_ecm_requested"
    ∷ "fax_t38_status" ∷ "fax_v17_disabled" ∷ "fax_local_station_id" ∷ "fax_remote_station_id"
    ∷ "fax_remote_country" ∷ "fax_remote_vendor" ∷ "fax_remote_model" ∷ "fax_trace_file" ∷ []

abbrev any_line : (String → Bool) → List String → Bool
any_line p [] = false
any_line p (l ∷ ls) = p l || any_line p ls

abbrev is_t38_line : String → Bool
is_t38_line line =
    has_prefix line "m=image" && (contains_text line "udptl" || contains_text line "t38")

abbrev pub is_negotiation : String → Bool
is_negotiation sub =
    sub == "spandsp::rxfaxnegociateresult" || sub == "spandsp::txfaxnegociateresult"

abbrev pub is_page : String → Bool
is_page sub = sub == "spandsp::rxfaxpageresult" || sub == "spandsp::txfaxpageresult"

abbrev pub is_completion : String → Bool
is_completion sub = sub == "spandsp::rxfaxresult" || sub == "spandsp::txfaxresult"

module _ (rd : Reader) where
  -- The variables that go to fields which only reach a row, or are flags of the session.
  unfoldable pub harvest_field : String → String → Session → Session
  harvest_field name v s =
      switch
        ((name == "fax_result_code", record s { result_code = or_kept (rd.atoi v) s.result_code })
          ∷ (name == "fax_image_size", record s { image_size = or_kept (rd.atoi v) s.image_size })
          ∷ (name == "fax_bad_rows", record s { bad_rows = or_kept (rd.atoi v) s.bad_rows })
          ∷ (
            name == "fax_longest_bad_row_run",
            record s { longest_bad_row_run = or_kept (rd.atoi v) s.longest_bad_row_run },
          )
          ∷ (name == "fax_encoding", record s { encoding = or_kept (rd.atoi v) s.encoding })
          ∷ (name == "fax_encoding_name", record s { encoding_name = v })
          ∷ (
            name == "fax_transfer_rate",
            record s { transfer_rate = or_kept (rd.atoi v) s.transfer_rate },
          )
          ∷ (name == "fax_ecm_used", record s { ecm = v == "on" || s.ecm })
          ∷ (
            name == "fax_ecm_requested",
            record s { ecm_requested = v == "1" || v == "true" || s.ecm_requested },
          )
          ∷ (name == "fax_v17_disabled", record s { v17_disabled = v == "1" || s.v17_disabled })
          ∷ (name == "fax_local_station_id", record s { local_id = text_or_kept s.local_id v })
          ∷ (name == "fax_remote_station_id", record s { remote_id = text_or_kept s.remote_id v })
          ∷ (name == "fax_remote_country", record s { remote_country = v })
          ∷ (name == "fax_remote_vendor", record s { remote_vendor = v })
          ∷ (name == "fax_remote_model", record s { remote_model = v })
          ∷ (name == "fax_trace_file", record s { trace_file = v })
          ∷ [])
        s

  -- The variables that go to the fields of the result itself.
  unfoldable pub harvest_result : String → String → FaxResult → FaxResult
  harvest_result name v r =
      switch
        ((name == "fax_success", record r { success = v == "1" || r.success })
          ∷ (name == "fax_result_text", record r { result_text = v })
          ∷ (
            name == "fax_document_transferred_pages",
            record r { transferred_pages = or_kept (rd.atoi v) r.transferred_pages },
          )
          ∷ (
            name == "fax_document_total_pages",
            record r { total_pages = or_kept (rd.atoi v) r.total_pages },
          )
          ∷ (name == "fax_t38_status", record r { t38_status = text_or_kept r.t38_status v })
          ∷ [])
        r

  -- harvestResultVars: one variable, and the loop over their names
  unfoldable pub harvest_var : Event → String → Session → Session
  harvest_var ev name s =
      let v = ev (String.◌++◌ "Variable_" name) in
      let kept : Session = record s {
        result = harvest_result name v s.result;
        result_vars = put name v s.result_vars;
      } in
      if v == "" then s else harvest_field name v kept

  unfoldable pub harvest_vars : Event → List String → Session → Session
  harvest_vars ev [] s = s
  harvest_vars ev (name ∷ names) s = harvest_vars ev names (harvest_var ev name s)

  -- detectT38InSDP
  unfoldable pub detect_t38_in_sdp : String → Bool
  detect_t38_in_sdp sdp = any_line (λ l. is_t38_line (rd.lower_trimmed l)) (rd.split_lines sdp)

  -- harvestBridgeLegT38, on the value of the field
  unfoldable pub harvest_bridge_leg_t38 : Event → String → String
  harvest_bridge_leg_t38 ev dst =
      let remote = ev "Variable_switch_r_sdp" in
      let local = ev "Variable_switch_l_sdp" in
      if not (dst == "")
      then dst
      else if remote == "" && local == ""
      then dst
      else if detect_t38_in_sdp remote || detect_t38_in_sdp local
      then "negotiated"
      else dst

  unfoldable pub add_call_state : Event → FaxResult → FaxResult
  add_call_state ev r =
      let state = ev "Channel-Call-State" in
      if state == "ACTIVE"
      then record r { start_ts = rd.now }
      else if state == "HANGUP"
      then record r { end_ts = rd.now; hangup_cause = ev "Hangup-Cause" }
      else r

  unfoldable pub add_hangup : Event → Session → Session
  add_hangup ev s =
      let harvested = harvest_vars ev fax_result_var_names s in
      if harvested.bridge
      then record harvested {
        bridge_a_leg_t38 = harvest_bridge_leg_t38 ev harvested.bridge_a_leg_t38;
      }
      else harvested

  -- A negotiation.
  unfoldable pub add_negotiation : Event → Session → Session
  add_negotiation ev s =
      let r = s.result in
      record s {
        result = record r {
          negotiate_count = suc r.negotiate_count;
          t38_status = ev "Fax-T38-Status";
        };
        ecm = ev "Fax-Ecm-Used" == "on" || s.ecm;
        ecm_requested = ev "Variable_fax_ecm_requested" == "1" || s.ecm_requested;
        remote_id = ev "Fax-Remote-Station-Id";
        local_id = ev "Fax-Local-Station-Id";
        v17_disabled = ev "Variable_fax_v17_disabled" == "1" || s.v17_disabled;
        remote_country = text_or_kept (ev "Variable_fax_remote_country") s.remote_country;
        remote_vendor = text_or_kept (ev "Variable_fax_remote_vendor") s.remote_vendor;
        remote_model = text_or_kept (ev "Variable_fax_remote_model") s.remote_model;
        transfer_rate = or_kept (rd.atoi (ev "Fax-Transfer-Rate")) s.transfer_rate;
      }

  -- A page was transferred.
  unfoldable pub add_page : Event → FaxResult → FaxResult
  add_page ev r = record r {
    transferred_pages = or_kept (rd.atoi (ev "Fax-Document-Transferred-Pages")) r.transferred_pages;
    page_bad_rows = r.page_bad_rows ++ or_kept (rd.atoi (ev "Fax-Bad-Rows")) 0 ∷ [];
  }

  -- The fax is complete.
  unfoldable pub add_completion : Event → Session → Session
  add_completion ev s =
      let r = s.result in
      record s {
        result = record r {
          total_pages = or_kept (rd.atoi (ev "Fax-Document-Total-Pages")) r.total_pages;
          transferred_pages =
              or_kept (rd.atoi (ev "Fax-Document-Transferred-Pages")) r.transferred_pages;
          result_text = ev "Fax-Result-Text";
          success = ev "Fax-Success" == "1" || r.success;
        };
        ecm = ev "Fax-Ecm-Used" == "on" || s.ecm;
        remote_id = ev "Fax-Remote-Station-Id";
        result_code = or_kept (rd.atoi (ev "Fax-Result-Code")) s.result_code;
        transfer_rate = or_kept (rd.atoi (ev "Fax-Transfer-Rate")) s.transfer_rate;
        bad_rows = or_kept (rd.atoi (ev "Fax-Bad-Rows")) s.bad_rows;
        longest_bad_row_run =
            or_kept (rd.atoi (ev "Fax-Longest-Bad-Row-Run")) s.longest_bad_row_run;
        encoding = or_kept (rd.atoi (ev "Fax-Encoding")) s.encoding;
        encoding_name = text_or_kept (ev "Fax-Encoding-Name") s.encoding_name;
        image_size = or_kept (rd.atoi (ev "Fax-Image-Size")) s.image_size;
      }

  unfoldable pub add_custom : Event → Session → Session
  add_custom ev s =
      let sub = ev "Event-Subclass" in
      if is_negotiation sub
      then add_negotiation ev s
      else if is_page sub
      then record s { result = add_page ev s.result }
      else if is_completion sub
      then add_completion ev s
      else s

  -- AddEvent
  unfoldable pub add_event : Event → Session → Session
  add_event ev s =
      let name = ev "Event-Name" in
      if name == "CHANNEL_CALLSTATE"
      then record s { result = add_call_state ev s.result }
      else if name == "CHANNEL_HANGUP"
      then add_hangup ev s
      else if name == "CUSTOM"
      then add_custom ev s
      else s

  -- AddBridgeBLegEvent
  unfoldable pub add_bridge_b_leg_event : Event → Session → Session
  add_bridge_b_leg_event ev s =
      if not s.bridge || not (ev "Event-Name" == "CHANNEL_HANGUP")
      then s
      else record s { bridge_b_leg_t38 = harvest_bridge_leg_t38 ev s.bridge_b_leg_t38 }
