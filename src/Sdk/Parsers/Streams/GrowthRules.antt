-- ===== src/Sdk/Parsers/Streams/GrowthRules.antt =====
-- What it means that a parser only adds to what it has seen, and rules for the parts of a line.
use inferlog.Prelude.{
  ◌≡◌, refl, sym, ◌∙◌, ap, Bool, true, false, Option, none, some, [], ◌++◌, append-nil,
  append_assoc, if◌then◌else◌,
}
use inferlog.Prelude.Json.{Json, str, is_none}
use inferlog.Prelude.Text.{Text}
use inferlog.Sdk.Parsers.Streams.Lines.{
  Observed, Fed, fed, raised, state, with_value, ◌andthen◌, add_output, unless_none, with_line,
}

-- The later output goes on from the earlier one, and an end that was seen stays seen.
pub record Grows (o o' : Observed) : Type 0 where
  pub added : Text
  pub output : o'.output_text ≡ o.output_text ++ added
  pub completed : o.completed ≡ true → o'.completed ≡ true

pub Grows-refl : (o : Observed) → Grows o o
Grows-refl o = record { added = []; output = sym (append-nil o.output_text); completed = λ h. h }

pub Grows-trans : {o o' o'' : Observed} → Grows o o' → Grows o' o'' → Grows o o''
Grows-trans {o} g h = record {
  added = g.added ++ h.added;
  output = h.output ∙ ap (λ t. t ++ h.added) g.output ∙ append_assoc o.output_text g.added h.added;
  completed = λ c. h.completed (g.completed c);
}

-- A handler of a part of a line.
abbrev pub Growing : (Observed → Fed) → Type 0
Growing h = (o : Observed) → Grows o (state (h o))

pub with_value-Growing {ℓ} :
    {A : Type ℓ} (v : Option A) (k : A → Observed → Fed)
    → ((a : A) → Growing (k a))
    → Growing (with_value v k)
with_value-Growing none k h o = Grows-refl o
with_value-Growing (some a) k h o = h a o

pub andthen-Grows :
    (o : Observed) (r : Fed) (k : Observed → Fed)
    → Grows o (state r)
    → Growing k
    → Grows o (state (r andthen k))
andthen-Grows o (fed o') k g h = Grows-trans g (h o')
andthen-Grows o (raised o') k g h = g

pub if-Growing :
    (b : Bool) (h k : Observed → Fed)
    → Growing h
    → Growing k
    → (o : Observed) → Grows o (state (if b then h o else k o))
if-Growing true h k g g' o = g o
if-Growing false h k g g' o = g' o

pub add_output-Growing : (v : Json) → Growing (add_output v)
unfolding add_output
add_output-Growing (str t) o = record { added = t; output = refl; completed = λ h. h }
add_output-Growing v o = Grows-refl o

-- A field other than the output is set.
pub same-Grows :
    (o o' : Observed)
    → o'.output_text ≡ o.output_text
    → (o.completed ≡ true → o'.completed ≡ true)
    → Grows o o'
same-Grows o o' e c = record {
  added = [];
  output = e ∙ sym (append-nil o.output_text);
  completed = c;
}

pub unless_none-Growing :
    (handle : Json → Observed → Fed)
    → ((v : Json) → Growing (handle v))
    → (v : Json) → Growing (unless_none handle v)
unless_none-Growing handle h v = if-Growing (is_none v) fed (handle v) Grows-refl (h v)

-- What `record o { completed = true }` is to `o`.
pub complete-Grows : (o : Observed) → Grows o (record o { completed = true })
complete-Grows o = same-Grows o _ refl (λ h. refl)

pub with_line-Growing :
    (line : Option Text) (k : Text → Observed → Fed)
    → ((t : Text) → Growing (k t))
    → Growing (with_line line k)
with_line-Growing none k h o = Grows-refl o
with_line-Growing (some t) k h o = h t o
