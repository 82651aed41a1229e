-- ===== src/Examples/WorkerMessages.antt =====
-- Conversations with PAM, PAM extensions and failed logins, at which the theorems on
-- daemon/scdm-session-worker.c are tried.
use scdm.Prelude.{
  ◌≡◌, refl, Bool, true, none, some, List, [], ◌∷◌, ltb, Bytes, codes, bytes_eq, Holds, is_some,
}
use scdm.Examples.Worker.{host, begun, asking_for_password}
use scdm.Worker.Conversation.Replies.{
  new_messages_handler-IsComplete, process_messages-AllFit, IsComplete, AllFit,
}
use scdm.Worker.Conversation.{new_messages_handler, process_messages, process_extended_pam_message}
use scdm.Worker.Extensions.Names.{extended_message_survives, copies}
use scdm.Worker.Extensions.Block.{written, block_overflows_exactly}
use scdm.Worker.Extensions.{choice_list, filter_extensions, advertise, block_size, posix_arg_max}
use scdm.Worker.Types.{user_unknown, auth_err, PamRun, Extended, Worker, WorkerHost}

new_messages_handler-IsComplete_example :
    Holds
      (λ r. IsComplete 1 r.1 r.2)
      (new_messages_handler host
        (record { user = some (some (codes "ada")); messages = some asking_for_password })
        begun)
new_messages_handler-IsComplete_example =
    new_messages_handler-IsComplete host (some (some (codes "ada"))) asking_for_password begun

process_messages-AllFit_example :
    Holds
      (λ r. Holds AllFit r.1)
      (process_messages host (some (some (codes "ada"))) asking_for_password begun)
process_messages-AllFit_example =
    process_messages-AllFit host (some (some (codes "ada"))) asking_for_password begun refl

abbrev given : List Bytes
given = codes "org.example.Other" ∷ choice_list ∷ []

abbrev extended : Extended
extended = record { length_declared = 24; type = 0; prompt_message = codes "Which?"; items = [] }

abbrev with_extensions : Worker
with_extensions = record begun {
  extensions = some (filter_extensions given);
  advertised = advertise (filter_extensions given) none;
}

extended_message_survives_example :
    is_some (process_extended_pam_message host extended with_extensions) ≡ true
extended_message_survives_example =
    extended_message_survives host extended given with_extensions refl refl

-- The name of the choice list given 66 times takes 26 bytes more than the block has.
block_overflows_exactly_example :
    (block_size (filter_extensions (copies 66)) ≡ 4122)
    × (ltb posix_arg_max (block_size (filter_extensions (copies 66))) ≡ true)
unfolding filter_extensions bytes_eq written
block_overflows_exactly_example = block_overflows_exactly (copies 66)

abbrev unknown_host : WorkerHost
unknown_host = record host {
  pam_authenticate = λ flag. record { batches = []; result = λ replies. user_unknown };
}

abbrev wrong_run : Bool → PamRun
wrong_run flag = record { batches = []; result = λ replies. auth_err }
