-- ===== src/Bootstrap/Topics.antt =====
-- internal/bootstrap/builder.go: `splitTopics` reads back what is written with commas.
use Prim.Native.Char.{Char, code}
use exchange_data_importer.Prelude.{
  String, ◌≡◌, refl, ap, ap₂, ◌∙◌, true, false, some, List, [], ◌∷◌, ◌++◌, map, ◌==◌, arith, All,
  last?, of_chars, to_chars-of_chars, append-nil, subst, sym, All-append,
}
use exchange_data_importer.Bootstrap.Options.{
  is_space, split_commas, trim_left, trim_right, trim_fields, split_topics,
}

abbrev AreSpaces : List Char → Type 0
AreSpaces cs = All (λ c. is_space c ≡ true) cs

abbrev HaveNoComma : List Char → Type 0
HaveNoComma cs = All (λ c. (code c == b',') ≡ false) cs

-- A name with no comma, and with no white space at its ends.
pub record IsName (cs : List Char) : Type 0 where
  pub no_comma : HaveNoComma cs
  pub first : Char
  pub rest : List Char
  pub starts : cs ≡ first ∷ rest
  pub first_shows : is_space first ≡ false
  pub final : Char
  pub ends : last? cs ≡ some final
  pub final_shows : is_space final ≡ false

-- A field between two commas: white space alone, or a name between white space.
pub data Field : Type 0 where
  blank : List Char → Field
  named : List Char → List Char → List Char → Field

abbrev pub written : Field → List Char
written (blank cs) = cs
written (named left name right) = left ++ (name ++ right)

abbrev pub IsField : Field → Type 0
IsField (blank cs) = AreSpaces cs
IsField (named left name right) = AreSpaces left × IsName name × AreSpaces right

-- The fields with commas between them, and the names among them.
abbrev pub joined : List Field → List Char
joined [] = []
joined (x ∷ []) = written x
joined (x ∷ y ∷ rest) = written x ++ "," ∷ joined (y ∷ rest)

abbrev pub names_of : List Field → List String
names_of [] = []
names_of (blank cs ∷ rest) = names_of rest
names_of (named left name right ∷ rest) = of_chars name ∷ names_of rest

space_no_comma : (c : Char) → is_space c ≡ true → (code c == b',') ≡ false
space_no_comma c h = ground arith

spaces_no_comma : (cs : List Char) → AreSpaces cs → HaveNoComma cs
spaces_no_comma [] h = tt
spaces_no_comma (c ∷ cs) h = (space_no_comma c h.0, spaces_no_comma cs h.1)

written-HaveNoComma : (x : Field) → IsField x → HaveNoComma (written x)
written-HaveNoComma (blank cs) h = spaces_no_comma cs h
written-HaveNoComma (named left name right) h =
    All-append _ left (name ++ right) (spaces_no_comma left h.0)
      (All-append _ name right h.1.no_comma (spaces_no_comma right h.2))

-- Trimming a field.
trim_left-spaces : (l cs : List Char) → AreSpaces l → trim_left (l ++ cs) ≡ trim_left cs
unfolding trim_left
trim_left-spaces [] cs h = refl
trim_left-spaces (c ∷ l) cs h = rw h.0 (trim_left-spaces l cs h.1)

trim_left-name : (cs r : List Char) → IsName cs → trim_left (cs ++ r) ≡ cs ++ r
unfolding trim_left
trim_left-name cs r h = rw (h.starts, h.first_shows)

trim_right-spaces : (r : List Char) → AreSpaces r → trim_right r ≡ []
unfolding trim_right
trim_right-spaces [] h = refl
trim_right-spaces (c ∷ r) h = rw (trim_right-spaces r h.1, h.0)

trim_right-name :
    (cs r : List Char) {c : Char}
    → last? cs ≡ some c
    → is_space c ≡ false
    → AreSpaces r
    → trim_right (cs ++ r) ≡ cs
unfolding trim_right
trim_right-name [] r e h s = cc
trim_right-name (c ∷ []) r {c = last} e h s =
    let it : last ≡ c = cc in
    let shows = subst (λ x. is_space x ≡ false) it h in rw (trim_right-spaces r s, shows)
trim_right-name (c ∷ d ∷ ds) r e h s = rw (trim_right-name (d ∷ ds) r e h s)

trim_name :
    (left name right : List Char)
    → AreSpaces left
    → IsName name
    → AreSpaces right
    → trim_right (trim_left (left ++ (name ++ right))) ≡ name
trim_name left name right l n r =
    rw (trim_left-spaces left (name ++ right) l, trim_left-name name right n)
      (trim_right-name name right n.ends n.final_shows r)

trim_blank : (cs : List Char) → AreSpaces cs → trim_right (trim_left cs) ≡ []
unfolding trim_left trim_right
trim_blank cs h = rw (← append-nil cs, trim_left-spaces cs [] h)

-- Splitting at the commas.
split_commas-append :
    (cs rest : List Char)
    → HaveNoComma cs
    → split_commas (cs ++ "," ∷ rest) ≡ cs ∷ split_commas rest
unfolding split_commas
split_commas-append [] rest h = refl
split_commas-append (c ∷ cs) rest h = rw (h.0, split_commas-append cs rest h.1)

split_commas_self : (cs : List Char) → HaveNoComma cs → split_commas cs ≡ cs ∷ []
unfolding split_commas
split_commas_self [] h = refl
split_commas_self (c ∷ cs) h = rw (h.0, split_commas_self cs h.1)

split_commas-joined :
    (x : Field) (rest : List Field)
    → All IsField (x ∷ rest)
    → split_commas (joined (x ∷ rest)) ≡ map written (x ∷ rest)
split_commas-joined x [] h = split_commas_self (written x) (written-HaveNoComma x h.0)
split_commas-joined x (y ∷ rest) h =
    split_commas-append (written x) (joined (y ∷ rest)) (written-HaveNoComma x h.0)
    ∙ ap (λ l. written x ∷ l) (split_commas-joined y rest h.1)

trim_fields-nil :
    (x : List Char) (rest : List (List Char))
    → trim_right (trim_left x) ≡ []
    → trim_fields (x ∷ rest) ≡ trim_fields rest
unfolding trim_fields
trim_fields-nil x rest e = rw (e, trim_fields)

trim_fields-cons :
    (x : List Char) (rest : List (List Char)) (c : Char) (cs : List Char)
    → trim_right (trim_left x) ≡ c ∷ cs
    → trim_fields (x ∷ rest) ≡ of_chars (c ∷ cs) ∷ trim_fields rest
unfolding trim_fields
trim_fields-cons x rest c cs e = rw (e, trim_fields)

trim_fields-written :
    (fields : List Field) → All IsField fields → trim_fields (map written fields) ≡ names_of fields
trim_fields-written [] h = unfold trim_fields in refl
trim_fields-written (blank cs ∷ rest) h =
    trim_fields-nil cs (map written rest) (trim_blank cs h.0) ∙ trim_fields-written rest h.1
trim_fields-written (named left name right ∷ rest) h =
    let n = h.0.1 in
    trim_fields-cons (left ++ (name ++ right)) (map written rest) n.first n.rest
      (trim_name left name right h.0.0 n h.0.2 ∙ n.starts)
    ∙ ap₂ (λ a l. of_chars a ∷ l) (sym n.starts) (trim_fields-written rest h.1)

split_joined :
    (fields : List Field)
    → All IsField fields
    → trim_fields (split_commas (joined fields)) ≡ names_of fields
unfolding split_commas trim_fields trim_left trim_right
split_joined [] h = refl
split_joined (x ∷ rest) h = rw (split_commas-joined x rest h) (trim_fields-written (x ∷ rest) h)

-- `splitTopics` reads back every list of names that is written with a comma between each two: names
-- that are not empty, hold no comma and do not begin or end with white space, with any white space
-- around each of them, and with any number of blank fields in between, which it leaves out.
pub split_topics-joined :
    (fields : List Field)
    → All IsField fields
    → split_topics (of_chars (joined fields)) ≡ names_of fields
unfolding split_topics
split_topics-joined fields h =
    ap (λ l. trim_fields (split_commas l)) (to_chars-of_chars (joined fields))
    ∙ split_joined fields h
