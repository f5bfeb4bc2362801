-- ===== src/Protocol/Request/Reads.antt =====
-- Writes on a line of parameters: what a server reads from the line afterwards.
use lightstreamer_rs.Base.{
  ℕ, ◌≡◌, sym, arith, Bool, true, false, Option, none, some, [], ◌∷◌, ◌++◌, append_assoc,
  append-nil, codes, All,
}
use lightstreamer_rs.Text.{Text, IsText}
use lightstreamer_rs.Text.Numbers.{decimal}
use lightstreamer_rs.Protocol.Parameters.{
  ParameterLine, verbatim, text, boolean, number, if_some, text?, boolean?, number?, word?,
  bool_text,
}
use lightstreamer_rs.Protocol.Request.Form.{
  Pairs, read_form, read_form-verbatim, IsName, Spells, Spells-text, Spells-bare, IsBare,
  IsBare-decimal,
}

-- Whatever stood on the line, these parameters come behind it.
pub record Writes (write : ParameterLine → ParameterLine) (pairs : Pairs) : Type 0 where
  pub reads :
      (line : ParameterLine) (before : Pairs)
      → read_form line ≡ some before
      → read_form (write line) ≡ some (before ++ pairs)

pub Writes-nothing : Writes (λ line. line) []
Writes-nothing = record { reads = λ line before h. rw append-nil h }

infixl 4 ◌then◌
pub ◌then◌ :
    {f g : ParameterLine → ParameterLine} {ps qs : Pairs}
    → Writes f ps
    → Writes g qs
    → Writes (λ line. g (f line)) (ps ++ qs)
◌then◌ {f} {g} {ps} {qs} wf wg = record {
  reads = λ line before h.
      rw (sym (append_assoc before ps qs))
        (wg.reads (f line) (before ++ ps) (wf.reads line before h));
}

-- A parameter that is there or not.
abbrev pub optional : {A : Type 0} → (A → Pairs) → Option A → Pairs
optional spell none = []
optional spell (some value) = spell value

abbrev pub OnSome : {A : Type 0} → (A → Type 0) → Option A → Type 0
OnSome P none = Unit
OnSome P (some value) = P value

pub Writes-verbatim :
    (name written value : Text)
    → IsName name
    → Spells written value
    → Writes (λ line. verbatim line name written) ((name, value) ∷ [])
Writes-verbatim name written value hn hw = record {
  reads = λ line before h. read_form-verbatim line before name written value hn hw h;
}

pub Writes-if_some :
    {A : Type 0} (P : A → Type 0) (write : ParameterLine → A → ParameterLine) (spell : A → Pairs)
    (o : Option A)
    → OnSome P o
    → ((a : A) → P a → Writes (λ line. write line a) (spell a))
    → Writes (λ line. if_some write line o) (optional spell o)
Writes-if_some P write spell none h each = Writes-nothing
Writes-if_some P write spell (some a) h each = each a h

pub Writes-text :
    (name t : Text) → IsName name → IsText t → Writes (λ line. text line name t) ((name, t) ∷ [])
Writes-text name t hn ht = Writes-verbatim name _ t hn (Spells-text t ht)

pub Writes-text? :
    (name : Text) (o : Option Text)
    → IsName name
    → OnSome IsText o
    → Writes (λ line. text? line name o) (optional (λ t. (name, t) ∷ []) o)
Writes-text? name o hn ho =
    Writes-if_some IsText (λ l t. text l name t) (λ t. (name, t) ∷ []) o ho
      (λ t ht. Writes-text name t hn ht)

pub Writes-number :
    (name : Text) (n : ℕ)
    → IsName name
    → Writes (λ line. number line name n) ((name, decimal n) ∷ [])
Writes-number name n hn =
    Writes-verbatim name (decimal n) (decimal n) hn (Spells-bare (decimal n) (IsBare-decimal n))

pub Writes-number? :
    (name : Text) (o : Option ℕ)
    → IsName name
    → Writes (λ line. number? line name o) (optional (λ n. (name, decimal n) ∷ []) o)
Writes-number? name none hn = Writes-nothing
Writes-number? name (some n) hn = Writes-number name n hn

Spells-bool_text : (b : Bool) → Spells (bool_text b) (bool_text b)
Spells-bool_text true = Spells-bare (codes "true") (omega arith)
Spells-bool_text false = Spells-bare (codes "false") (omega arith)

pub Writes-boolean :
    (name : Text) (b : Bool)
    → IsName name
    → Writes (λ line. boolean line name b) ((name, bool_text b) ∷ [])
Writes-boolean name b hn = Writes-verbatim name (bool_text b) (bool_text b) hn (Spells-bool_text b)

pub Writes-boolean? :
    (name : Text) (o : Option Bool)
    → IsName name
    → Writes (λ line. boolean? line name o) (optional (λ b. (name, bool_text b) ∷ []) o)
Writes-boolean? name none hn = Writes-nothing
Writes-boolean? name (some b) hn = Writes-boolean name b hn

-- A word whose characters stand for themselves.
pub Writes-word :
    (name word : Text)
    → IsName name
    → All IsBare word
    → Writes (λ line. verbatim line name word) ((name, word) ∷ [])
Writes-word name word hn hw = Writes-verbatim name word word hn (Spells-bare word hw)

pub Writes-word? :
    {A : Type 0} (P : A → Type 0) (spell : A → Text) (name : Text) (o : Option A)
    → IsName name
    → OnSome P o
    → ((a : A) → P a → All IsBare (spell a))
    → Writes (λ line. word? spell line name o) (optional (λ a. (name, spell a) ∷ []) o)
Writes-word? P spell name none hn h bare = Writes-nothing
Writes-word? P spell name (some a) hn h bare = Writes-word name (spell a) hn (bare a h)

-- Every value spells such a word.
pub Writes-plain? :
    {A : Type 0} (spell : A → Text) (name : Text) (o : Option A)
    → IsName name
    → ((a : A) → All IsBare (spell a))
    → Writes (λ line. word? spell line name o) (optional (λ a. (name, spell a) ∷ []) o)
Writes-plain? spell name none hn bare = Writes-nothing
Writes-plain? spell name (some a) hn bare = Writes-word name (spell a) hn (bare a)
