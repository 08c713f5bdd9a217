-- ===== src/Tuple/Accessor/Cache.antt =====
-- The accessor with its cache does what an accessor would do that has the values of the tuple from the
-- start and no state.
use storage_prototype.Common.{
  ℕ, ◌≡◌, ◌∙◌, refl, sym, ap, subst, Bool, true, false, Bool-cases, choose_true, choose_false, List,
  get_elem?, inl, inr,
}
use storage_prototype.Schema.{Schema}
use storage_prototype.Tuple.Field.{FieldValue}
use storage_prototype.Tuple.Header.{TupleHeader}
use storage_prototype.Tuple.Serializer.{Result, ok, err}
use storage_prototype.Tuple.Accessor.{
  no_index, not_deserialized, Access, gives, raises, TupleAccessor, Method, ◌>>=◌, continue, look,
  present, deserialized, keep_values, ensure_deserialized, cached_value,
}

-- What a caller can see of a tuple: its schema, its null bits, and the values in its buffer, or the
-- error of reading them.
pub record View : Type 0 where
  pub schema : Schema
  pub header : TupleHeader
  pub contents : Result (List FieldValue)

abbrev pub view : TupleAccessor → View
view a = record { schema = a.schema; header = a.header; contents = deserialized a }

-- The cache holds the values of the tuple if it holds any.
abbrev pub IsCached : TupleAccessor → Type 0
IsCached a = a.is_deserialized ≡ true → deserialized a ≡ ok a.cached_values

-- A call that returned what a function of the view returns, changed nothing that can be seen, and left
-- the cache empty or right.
abbrev pub Matches : {A : Type 0} → Method A → (View → Access A) → TupleAccessor → Type 0
Matches m f a = ((m a).0 ≡ f (view a)) × (view (m a).1 ≡ view a) × IsCached (m a).1

abbrev pub Refines : {A : Type 0} → Method A → (View → Access A) → Type 0
Refines m f = (a : TupleAccessor) → IsCached a → Matches m f a

abbrev pub and_then : {A B : Type 0} → Access A → (A → Access B) → Access B
and_then (gives x) f = f x
and_then (raises e) f = raises e

pub look-Refines : {A : Type 0} (f : View → Access A) → Refines (look (λ a. f (view a))) f
look-Refines f a w = (refl, refl, w)

pub bind-Refines :
    {A B : Type 0} (m : Method A) (f : View → Access A) (k : A → Method B) (g : A → View → Access B)
    → Refines m f
    → ((x : A) → Refines (k x) (g x))
    → Refines (m >>= k) (λ v. and_then (f v) (λ x. g x v))
bind-Refines {A} {B} m f k g hm hk a w =
    let (result, same, w') = hm a w in next (m a).0 (m a).1 (f (view a)) result same w'
  where
    next :
        (r : Access A) (a' : TupleAccessor) (s : Access A)
        → r ≡ s
        → view a' ≡ view a
        → IsCached a'
        → ((continue r a' k).0 ≡ and_then s (λ x. g x (view a)))
          × (view (continue r a' k).1 ≡ view a)
          × IsCached (continue r a' k).1
    next (gives x) a' s e same w' =
        let (result, same', w'') = hk x a' w' in
        (
          result ∙ ap (g x) same ∙ ap (λ (r : Access A). and_then r (λ y. g y (view a))) e,
          same' ∙ same,
          w'',
        )
    next (raises x) a' s e same w' =
        (ap (λ (r : Access A). and_then r (λ y. g y (view a))) e, same, w')

-- The value at an index of the contents.
abbrev pub value_in : Result (List FieldValue) → ℕ → Access FieldValue
value_in (ok values) i = present no_index (get_elem? values i)
value_in (err e) i = raises (not_deserialized e)

unchanged :
    (a : TupleAccessor) (values : List FieldValue) (b : Bool)
    → deserialized (record a { cached_values = values; is_deserialized = b }) ≡ deserialized a
unfolding deserialized
unchanged a values b = refl

-- What `EnsureDeserialized` leaves, for the read that follows.
abbrev ReadAt : ℕ → TupleAccessor → Access (Unit {0}) × TupleAccessor → Type 0
ReadAt i a out =
    let result =
      continue out.0 out.1 (λ _. look (λ b. present no_index (get_elem? b.cached_values i))) in
    (result.0 ≡ value_in (deserialized a) i) × (view result.1 ≡ view a) × IsCached result.1

keep_values-ReadAt :
    (i : ℕ) (a : TupleAccessor) (r : Result (List FieldValue))
    → a.is_deserialized ≡ false
    → deserialized a ≡ r
    → ReadAt i a (keep_values a r)
unfolding keep_values
keep_values-ReadAt i a (ok values) fresh e = (
  sym (ap (λ (r : Result (List FieldValue)). value_in r i) e),
  ap
      (λ (r : Result (List FieldValue)). record {
        schema = a.schema;
        header = a.header;
        contents = r;
      })
      (unchanged a values true),
  λ h. unchanged a values true ∙ e,
)
keep_values-ReadAt i a (err x) fresh e = (
  sym (ap (λ (r : Result (List FieldValue)). value_in r i) e),
  refl,
  λ h. absurd (differ (sym h ∙ fresh)),
)
  where
    differ : true ≡ false → ⊥
    differ h = subst (λ (c : Bool). elim c [ true ↦ Unit | false ↦ ⊥ ]) h tt

pub cached_value-Refines : (i : ℕ) → Refines (cached_value i) (λ v. value_in v.contents i)
unfolding cached_value ensure_deserialized
cached_value-Refines i a w = elim (Bool-cases a.is_deserialized) [
  | inl filled ↦
      subst (ReadAt i a) (sym (choose_true _ _ filled))
        (sym (ap (λ (r : Result (List FieldValue)). value_in r i) (w filled)), refl, w)
  | inr fresh ↦
      subst (ReadAt i a) (sym (choose_false _ _ fresh))
        (keep_values-ReadAt i a (deserialized a) fresh refl)
]
