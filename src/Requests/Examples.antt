-- ===== src/Requests/Examples.antt =====
-- The theorems on the waiters, with results that are a text after the id.
use mpcium.Base.{ℕ, ◌≡◌, refl, true, some, List, [], ◌∷◌, Str, codes, arith}
use mpcium.Requests.{Channel, sign_transaction, handle_sign_result}
use mpcium.Requests.Routing.{SentOnce, SentRight}
use mpcium.Requests.Clients.{
  Happening, wallet_requested, transaction_requested, keygen_result, sign_result, run, new_client,
  run-new_client-SentOnce, Spares, handle_sign_result-sign_transaction,
}

abbrev Reply : Type 0
Reply = Str × ℕ

abbrev id_of : Reply → Str
id_of e = e.0

-- Two requests for one transaction, with two results.
abbrev twice : List (Happening Reply Reply)
twice =
    wallet_requested (codes "w") true
    ∷ transaction_requested (codes "t") true
    ∷ transaction_requested (codes "t") true
    ∷ sign_result (codes "t", 1)
    ∷ sign_result (codes "t", 2)
    ∷ keygen_result (codes "w", 3)
    ∷ []

run-new_client-SentOnce_example :
    SentOnce id_of (run id_of id_of twice (new_client id_of id_of)).keygen_wait.sent
    × SentRight id_of (run id_of id_of twice (new_client id_of id_of)).keygen_wait.sent
    × SentOnce id_of (run id_of id_of twice (new_client id_of id_of)).signing_wait.sent
    × SentRight id_of (run id_of id_of twice (new_client id_of id_of)).signing_wait.sent
run-new_client-SentOnce_example = run-new_client-SentOnce id_of id_of twice

abbrev between : List (Happening Reply Reply)
between =
    transaction_requested (codes "u") true
    ∷ sign_result (codes "v", 1)
    ∷ keygen_result (codes "w", 3)
    ∷ []

between-Spares : Spares id_of id_of (codes "t") between
between-Spares = ((λ e. ground arith), ((λ e. ground arith), tt))

handle_sign_result-sign_transaction_example :
    (ch : Channel) × ((sign_transaction (codes "t") true (new_client id_of id_of)).1 ≡ some ch)
    × ((handle_sign_result id_of
          (codes "t", 7)
          (run id_of id_of between
            (sign_transaction (codes "t") true (new_client id_of id_of)).0)).signing_wait.sent
        ≡ (ch, (codes "t", 7))
          ∷ (run id_of id_of between
              (sign_transaction (codes "t") true (new_client id_of id_of)).0).signing_wait.sent)
handle_sign_result-sign_transaction_example =
    handle_sign_result-sign_transaction id_of id_of (new_client id_of id_of) (codes "t") between
      (codes "t", 7) between-Spares refl
