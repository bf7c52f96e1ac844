-- ===== src/Persistence/StorePort.antt =====
-- `StorePort` of src/domain/types/store-port.ts, as far as the session pinner uses it: the three pin
-- operations. A write promise settles once the write is accepted, and a later read sees it.
use pi_smart_router.Prelude.{◌≡◌, String, Option, none, some, str_eq, if◌then◌else◌}
use pi_smart_router.Types.{SessionPin}

pub record StorePort : Type 1 where
  pub Store : Type 0
  pub get_session_pin : Store → String → Option SessionPin
  pub put_session_pin : Store → SessionPin → Store
  pub delete_session_pin : Store → String → Store
  pub get-put :
      (s : Store) (pin : SessionPin) (id : String)
      → get_session_pin (put_session_pin s pin) id
        ≡ (if str_eq pin.session_id id then some pin else get_session_pin s id)
  pub get-delete :
      (s : Store) (gone id : String)
      → get_session_pin (delete_session_pin s gone) id
        ≡ (if str_eq gone id then none else get_session_pin s id)
