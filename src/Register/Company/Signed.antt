-- ===== src/Register/Company/Signed.antt =====
-- What the requests of RegisterPage.tsx are to hold.
use rs_recruitment.Base.{true, ◌≡◌, inl, inr, ◌⊎◌, ◌++◌, IsGiven, List, [], ◌∷◌, Text, trim}
use rs_recruitment.Register.Company.Signature.{IsSecond}
use rs_recruitment.Register.Company.{FormState}
use rs_recruitment.Register.Company.Fields.{IsComplete}
use rs_recruitment.Register.Company.Page.{Post}
use rs_recruitment.Register.Company.Events.{Event, draw}

-- The signatures drawn in a run.
abbrev pub drawn_by : Event → List Text
drawn_by (draw url) = url ∷ []
drawn_by _ = []

abbrev pub drawn : List Event → List Text
drawn [] = []
drawn (e ∷ es) = drawn_by e ++ drawn es

abbrev pub IsAmong : Text → List Text → Type 0
IsAmong url [] = ⊥
IsAmong url (u ∷ urls) = (u ≡ url) ⊎ IsAmong url urls

-- A request that holds a complete form, trimmed, both consents and one of the signatures.
pub record IsSigned (urls : List Text) (p : Post) : Type 0 where
  pub form : FormState
  pub complete : IsComplete form p.logo
  pub mail : p.email ≡ trim form.email
  pub pass : p.password ≡ form.password
  pub number : p.company_id ≡ trim form.company_id
  pub name : p.company_name ≡ trim form.company_name
  pub place : p.address ≡ trim form.address
  pub first : p.contact_first_name ≡ trim form.contact_first_name
  pub last : p.contact_last_name ≡ trim form.contact_last_name
  pub phone : p.contact_mobile_phone ≡ trim form.contact_mobile_phone
  pub landline :
      IsGiven form.contact_landline_phone
        (trim form.contact_landline_phone)
        p.contact_landline_phone
  pub privacy : p.privacy_accepted ≡ true
  pub terms : p.terms_accepted ≡ true
  pub signed : (url : Text) × IsAmong url urls × IsSecond url p.agreement_signature

pub IsAmong-append :
    (url : Text) (us vs : List Text) → IsAmong url us ⊎ IsAmong url vs → IsAmong url (us ++ vs)
IsAmong-append url [] vs (inl h) = absurd h
IsAmong-append url [] vs (inr h) = h
IsAmong-append url (u ∷ us) vs (inl (inl h)) = inl h
IsAmong-append url (u ∷ us) vs (inl (inr h)) = inr (IsAmong-append url us vs (inl h))
IsAmong-append url (u ∷ us) vs (inr h) = inr (IsAmong-append url us vs (inr h))
