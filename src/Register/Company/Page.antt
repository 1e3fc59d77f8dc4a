-- ===== src/Register/Company/Page.antt =====
-- The state of RegisterPage.tsx, its handlers and a run of its events. The invitation's token is the
-- one of the page's address, `token_given` tells whether there is one. An event reaches its handler only while the
-- part of the page that holds its control is shown.
use rs_recruitment.Base.{
  ℕ, Bool, true, false, ◌&&◌, ◌==◌, Option, none, some, List, [], ◌∷◌, Text, is_empty,
  if◌then◌else◌,
}
unfoldable use rs_recruitment.Base.{trim}
use rs_recruitment.Register.{Message, is_fine}
use rs_recruitment.Register.Company.{
  Key, company_name, company_id, address, contact_first_name, contact_last_name,
  contact_mobile_phone, contact_landline_phone, email, password, confirm, logo, signature, privacy,
  terms, FormState, empty_form, with_field, FieldErrors, step_1_errors, every_fine, validate_email,
  validate_password, validate_confirm, validate_company_name, validate_company_id, validate_address,
  validate_contact_first_name, validate_contact_last_name, validate_mobile_phone,
  validate_signature, validate_terms, validate_privacy,
}

-- The `FormData` of `register(fd, inviteToken)`.
pub record Post : Type 0 where
  pub email : Text
  pub password : Text
  pub company_name : Text
  pub company_id : Text
  pub address : Text
  pub contact_first_name : Text
  pub contact_last_name : Text
  pub contact_mobile_phone : Text
  pub contact_landline_phone : Option Text
  pub agreement_signature : Text
  pub privacy_accepted : Bool
  pub terms_accepted : Bool
  pub logo : Option Text

-- `posts` are the requests sent, the last one first.
pub record Page : Type 0 where
  pub token_given : Bool
  pub step : ℕ
  pub form : FormState
  pub privacy_accepted : Bool
  pub terms_accepted : Bool
  pub field_errors : FieldErrors
  pub logo_file : Option Text
  pub drawing : Option Text
  pub submitting : Bool
  pub submit_error : Message
  pub success : Bool
  pub contract_open : Bool
  pub terms_open : Bool
  pub privacy_open : Bool
  pub metadata_loading : Bool
  pub token_invalid : Bool
  pub email_pre_filled : Bool
  pub posts : List Post

abbrev pub start : Bool → Page
start token = record {
  token_given = token;
  step = 1;
  form = empty_form;
  privacy_accepted = false;
  terms_accepted = false;
  field_errors = λ key. none;
  logo_file = none;
  drawing = none;
  submitting = false;
  submit_error = none;
  success = false;
  contract_open = false;
  terms_open = false;
  privacy_open = false;
  metadata_loading = token;
  token_invalid = false;
  email_pre_filled = false;
  posts = [];
}

abbrev pub same_key : Key → Key → Bool
same_key company_name company_name = true
same_key company_id company_id = true
same_key address address = true
same_key contact_first_name contact_first_name = true
same_key contact_last_name contact_last_name = true
same_key contact_mobile_phone contact_mobile_phone = true
same_key contact_landline_phone contact_landline_phone = true
same_key email email = true
same_key password password = true
same_key confirm confirm = true
same_key logo logo = true
same_key signature signature = true
same_key privacy privacy = true
same_key terms terms = true
same_key _ _ = false

-- `{ ...prev, [key]: message }`
abbrev pub assign : Key → Message → FieldErrors → FieldErrors
assign key message errors k = if same_key key k then message else errors k

-- The answer of `getInviteMetadata`: its `email`, or a failure.
unfoldable pub metadata_arrives : Option Text → Page → Page
metadata_arrives none w = record w { metadata_loading = false }
metadata_arrives (some mail) w = record w {
  form = record w.form { email = mail };
  email_pre_filled = if is_empty mail then w.email_pre_filled else true;
  metadata_loading = false;
}

unfoldable pub metadata_fails : Page → Page
metadata_fails w = record w { token_invalid = true; metadata_loading = false }

unfoldable pub handle_change : Key → Text → Page → Page
unfolding with_field
handle_change key value w = record w {
  form = with_field key value w.form;
  field_errors =
      if is_fine (w.field_errors key) then w.field_errors else assign key none w.field_errors;
}

unfoldable pub blur_error : Key → Text → FormState → Message
unfolding validate_email validate_password validate_confirm validate_company_name
    validate_company_id validate_contact_first_name validate_contact_last_name validate_mobile_phone
    validate_address
blur_error email value form = validate_email value
blur_error password value form = validate_password value
blur_error confirm value form = validate_confirm value form.password
blur_error company_name value form = validate_company_name value
blur_error company_id value form = validate_company_id value
blur_error address value form = validate_address value
blur_error contact_first_name value form = validate_contact_first_name value
blur_error contact_last_name value form = validate_contact_last_name value
blur_error contact_mobile_phone value form = validate_mobile_phone value
blur_error _ value form = none

unfoldable pub handle_blur : Key → Text → Page → Page
unfolding blur_error
handle_blur key value w = record w {
  field_errors = assign key (blur_error key value w.form) w.field_errors;
}

unfoldable pub handle_logo_change : Option Text → Page → Page
handle_logo_change none w = record w { logo_file = none }
handle_logo_change (some file) w = record w {
  logo_file = some file;
  field_errors = assign logo none w.field_errors;
}

unfoldable pub handle_next : Page → Page
unfolding step_1_errors every_fine
handle_next w =
    let errors = step_1_errors w.form w.logo_file in
    if every_fine errors
    then record w { field_errors = errors; submit_error = none; step = 2 }
    else record w { field_errors = errors }

-- `onBack`
unfoldable pub handle_back : Page → Page
handle_back w = record w { step = 1; drawing = none; submit_error = none }

abbrev pub no_drawing : Option Text → Bool
no_drawing none = true
no_drawing (some url) = false

-- `validateStep2`'s errors, over the previous ones.
unfoldable pub step_2_errors : Page → FieldErrors
step_2_errors w = assign privacy (validate_privacy w.privacy_accepted) (
    assign terms (validate_terms w.terms_accepted)
      (assign signature (validate_signature (no_drawing w.drawing)) w.field_errors))

unfoldable pub step_2_fine : Page → Bool
step_2_fine w =
    is_fine (validate_signature (no_drawing w.drawing))
    && is_fine (validate_terms w.terms_accepted)
    && is_fine (validate_privacy w.privacy_accepted)

-- What stands before the next comma.
unfoldable pub before_comma : Text → Text
before_comma [] = []
before_comma (c ∷ s) = let rest = before_comma s in if c == b',' then [] else c ∷ rest

-- `s.split(",")[1] ?? ""`
unfoldable pub second_part : Text → Text
unfolding before_comma
second_part [] = []
second_part (c ∷ s) = let rest = second_part s in if c == b',' then before_comma s else rest

abbrev pub data_url : Option Text → Text
data_url none = []
data_url (some url) = url

unfoldable pub form_data : Page → Post
unfolding second_part
form_data w = record {
  email = trim w.form.email;
  password = w.form.password;
  company_name = trim w.form.company_name;
  company_id = trim w.form.company_id;
  address = trim w.form.address;
  contact_first_name = trim w.form.contact_first_name;
  contact_last_name = trim w.form.contact_last_name;
  contact_mobile_phone = trim w.form.contact_mobile_phone;
  contact_landline_phone =
      if is_empty (trim w.form.contact_landline_phone)
      then none
      else some (trim w.form.contact_landline_phone);
  agreement_signature = second_part (data_url w.drawing);
  privacy_accepted = w.privacy_accepted;
  terms_accepted = w.terms_accepted;
  logo = w.logo_file;
}
