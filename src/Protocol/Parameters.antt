-- ===== src/Protocol/Parameters.antt =====
-- src/protocol/request.rs: the line of parameters that a request is written to.
use lightstreamer_rs.Base.{ℕ, Bool, true, false, Option, none, some, [], ◌∷◌, ◌++◌, codes}
use lightstreamer_rs.Text.{Text}
use lightstreamer_rs.Text.Numbers.{decimal}
use lightstreamer_rs.Protocol.Escaping.{encode_form_value, into_owned}

abbrev pub ParameterLine : Type 0
ParameterLine = Text

unfoldable pub verbatim : ParameterLine → Text → Text → ParameterLine
verbatim [] name value = name ++ b'=' ∷ value
verbatim (c ∷ line) name value = (c ∷ line) ++ b'&' ∷ (name ++ b'=' ∷ value)

abbrev pub text : ParameterLine → Text → Text → ParameterLine
text line name value = verbatim line name (into_owned (encode_form_value value))

abbrev pub bool_text : Bool → Text
bool_text true = codes "true"
bool_text false = codes "false"

abbrev pub boolean : ParameterLine → Text → Bool → ParameterLine
boolean line name value = verbatim line name (bool_text value)

abbrev pub number : ParameterLine → Text → ℕ → ParameterLine
number line name value = verbatim line name (decimal value)

-- `if let Some(value) = ...` around a write.
abbrev pub if_some :
    {A : Type 0} → (ParameterLine → A → ParameterLine) → ParameterLine → Option A → ParameterLine
if_some write line none = line
if_some write line (some value) = write line value

abbrev pub text? : ParameterLine → Text → Option Text → ParameterLine
text? line name = if_some (λ l value. text l name value) line

abbrev pub boolean? : ParameterLine → Text → Option Bool → ParameterLine
boolean? line name = if_some (λ l value. boolean l name value) line

abbrev pub number? : ParameterLine → Text → Option ℕ → ParameterLine
number? line name = if_some (λ l value. number l name value) line

-- A value with a word of its own.
abbrev pub word? : {A : Type 0} → (A → Text) → ParameterLine → Text → Option A → ParameterLine
word? spell line name = if_some (λ l value. verbatim l name (spell value)) line
