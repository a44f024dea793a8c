-- ===== src/Logging/Examples.antt =====
-- A logger at concrete inputs.
use perpx_load_test.Base.{◌≡◌, refl, some, none, [], ◌∷◌}
use perpx_load_test.Logging.{
  text, other, Logger, error, pairs, cons_pair, map_of, insert_all, serialize_kv_pairs, logger_with,
  new_logrus_logger, with_kv_pairs, add_line, log, push_fields, pop_fields,
}
use perpx_load_test.Logging.Fields.{set_all, pop_fields-push_fields}

abbrev plain : Logger
plain = record {
  ctx = "worker";
  store = (("id", text "one") ∷ []) ∷ [];
  fields = 0;
  pushed = [];
  lines = [];
}

-- The pairs that a new logger is given are lost.
lost_test :
    new_logrus_logger "worker" (text "id" ∷ text "one" ∷ [])
    ≡ some (record { ctx = "worker"; store = [] ∷ []; fields = 0; pushed = []; lines = [] })
unfolding new_logrus_logger logger_with serialize_kv_pairs map_of insert_all pairs cons_pair
lost_test = refl

-- A key that is no text.
panic_test : log error "failed" (other 1 ∷ text "x" ∷ []) plain ≡ none
unfolding log add_line with_kv_pairs serialize_kv_pairs map_of pairs cons_pair
panic_test = refl

pop_fields-push_fields_example :
    pop_fields (set_all (("id", text "two") ∷ []) (push_fields plain))
    ≡ set_all (("id", text "two") ∷ []) plain
pop_fields-push_fields_example = pop_fields-push_fields (("id", text "two") ∷ []) plain
