-- ===== src/Queues/Samples.antt =====
-- A registry of two queues.
use dygo.Base.{
  Text, codes, text_eq, trim_space, is_space, contains_text, [], ◌∷◌, pos, true, false, ok, err,
  ◌≡◌, refl,
}
use dygo.Queues.{Queue, Config, default_name, no_default, validate, has}
use dygo.Queues.Registry.{validate-has_default}

abbrev queue : Text → Queue
queue name = record { name = name; concurrency = pos 2 }

abbrev two : Config
two = record {
  queues = queue (codes "mail") ∷ queue (codes "default") ∷ [];
  retention_days = pos 30;
}

two_queues : validate two ≡ ok tt
unfolding validate text_eq trim_space is_space contains_text
two_queues = refl

default_is_wanted :
    validate (record { queues = queue (codes "mail") ∷ []; retention_days = pos 30 })
    ≡ err (no_default ∷ [])
unfolding validate text_eq trim_space is_space contains_text
default_is_wanted = refl

-- With blanks around it the name is accepted and not found.
blanks_validate :
    validate (record { queues = queue (codes " default ") ∷ []; retention_days = pos 30 }) ≡ ok tt
unfolding validate text_eq trim_space is_space contains_text
blanks_validate = refl

blanks_are_not_found :
    has
      (record { queues = queue (codes " default ") ∷ []; retention_days = pos 30 })
      (codes "default")
    ≡ false
unfolding has text_eq trim_space is_space
blanks_are_not_found = refl

validate-has_default_example : has two default_name ≡ true
unfolding trim_space is_space
validate-has_default_example = validate-has_default two two_queues (refl, (refl, tt))
