-- ===== src/ScaleAsg/Schema.antt =====
-- The types that src/autorecycle_scale_asg/lambda_types.py declares for the fields of an event, which
-- pydantic validates: what `Event.model_validate` takes, key by key.
use aws_autorecycle.Base.{String, Bool, true, false, not, ◌&&◌, Option, none, some, List, [], ◌∷◌}
use aws_autorecycle.Json.{Json, null, bool, num, str, arr, obj, Items, nil, cons, Fields, lookup}

-- `str`, `bool`, `int`, `Union[List[str], str]`, `Union[bool, str]`, `List[Dict[str, Any]]`
pub data Basic : Type 0 where
  text flag whole text_or_texts flag_or_text dictionaries : Basic

abbrev pub is_text : Json → Bool
is_text (str s) = true
is_text _ = false

abbrev is_dictionary : Json → Bool
is_dictionary (obj d) = true
is_dictionary _ = false

unfoldable pub all_items : (Json → Bool) → Items → Bool
all_items p nil = true
all_items p (cons v vs) = p v && all_items p vs

unfoldable pub fits_basic : Basic → Json → Bool
fits_basic text v = is_text v
fits_basic flag (bool b) = true
fits_basic whole (num n) = true
fits_basic text_or_texts (str s) = true
fits_basic text_or_texts (arr vs) = all_items is_text vs
fits_basic flag_or_text (bool b) = true
fits_basic flag_or_text (str s) = true
fits_basic dictionaries (arr vs) = all_items is_dictionary vs
fits_basic _ _ = false

-- A declared field: `Optional[...]` takes `None`, and a field without a default is required.
pub record Declared (K : Type 0) : Type 0 where
  pub name : String
  pub kind : K
  pub optional : Bool
  pub required : Bool

-- `name: Optional[kind] = None`
abbrev pub optionally : {K : Type 0} → String → K → Declared K
optionally name kind = record { name = name; kind = kind; optional = true; required = false }

abbrev pub takes : Bool → (Json → Bool) → Json → Bool
takes true p null = true
takes optional p v = p v

abbrev pub field_fits : {K : Type 0} → (K → Json → Bool) → Declared K → Option Json → Bool
field_fits fits f none = not f.required
field_fits fits f (some v) = takes f.optional (fits f.kind) v

-- Whether a dictionary has a value of its type for each declared key. Other keys are ignored.
unfoldable pub conforms : {K : Type 0} → (K → Json → Bool) → List (Declared K) → Fields → Bool
conforms fits [] d = true
conforms fits (f ∷ fields) d = field_fits fits f (lookup f.name d) && conforms fits fields d

-- The fields of `MessageContent`.
abbrev pub message_content_schema : List (Declared Basic)
message_content_schema =
    optionally "color" text ∷ optionally "fields" dictionaries ∷ optionally "text" text ∷ []

pub data Kind : Type 0 where
  basic : Basic → Kind
  message_content : Kind

unfoldable pub fits : Kind → Json → Bool
fits (basic b) v = fits_basic b v
fits message_content (obj d) = conforms fits_basic message_content_schema d
fits message_content _ = false

-- The fields of `Event`.
abbrev pub event_schema : List (Declared Kind)
event_schema =
    optionally "channels" (basic text_or_texts)
    ∷ record { name = "component"; kind = basic text; optional = false; required = true }
    ∷ optionally "counter" (basic whole)
    ∷ optionally "emoji" (basic text)
    ∷ optionally "exception" (basic text)
    ∷ optionally "message_content" message_content
    ∷ record {
      name = "monitoring_slack_channel";
      kind = basic text;
      optional = false;
      required = false;
    }
    ∷ optionally "pager_duty_description" (basic text)
    ∷ optionally "pager_duty_event_type" (basic text)
    ∷ optionally "notify_pager_duty" (basic flag)
    ∷ optionally "recycle_success" (basic flag)
    ∷ optionally "status" (basic flag_or_text)
    ∷ record { name = "success_channel"; kind = basic text; optional = false; required = true }
    ∷ optionally "team" (basic text)
    ∷ optionally "text" (basic text)
    ∷ optionally "username" (basic text)
    ∷ []
