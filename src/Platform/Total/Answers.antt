-- ===== src/Platform/Total/Answers.antt =====
-- The forms of the messages to the accounts and of the contracts' own messages and answers.
use cw_ibc_demo.Prelude.{String, ◌≡◌, refl, Option, List, ◌⊎◌, inl, inr}
use cw_ibc_demo.Std.{CosmosMsg, QueryRequest, Cw1InstantiateMsg, Cw1ExecuteMsg, execute}
use cw_ibc_demo.Controller.Msg as ica
use cw_ibc_demo.Host.Msg as host
use cw_ibc_demo.Capturer.Msg as capturer
use cw_ibc_demo.Platform.Total.Format.{Format, number, via, pair, sum, list}
use cw_ibc_demo.Platform.Total.Text.{text}
use cw_ibc_demo.Platform.Total.Types.{bool, option, coin, message, request, ack}

abbrev pub cw1_init : Format Cw1InstantiateMsg
cw1_init =
    via (λ x. record { admins = x.0; mutable = x.1 }) (λ r. (r.admins, r.mutable)) (λ r. refl)
      (pair (list text) bool)

abbrev of_exec : Cw1ExecuteMsg → List CosmosMsg
of_exec (execute ms) = ms

pub execute-of_exec : (m : Cw1ExecuteMsg) → execute (of_exec m) ≡ m
execute-of_exec (execute ms) = refl

abbrev pub cw1_exec : Format Cw1ExecuteMsg
cw1_exec = via execute of_exec execute-of_exec (list message)

abbrev of_reflect : host.ReflectExecuteMsg → List CosmosMsg
of_reflect (host.reflect_msg ms) = ms

pub reflect_msg-of_reflect : (m : host.ReflectExecuteMsg) → host.reflect_msg (of_reflect m) ≡ m
reflect_msg-of_reflect (host.reflect_msg ms) = refl

abbrev pub reflect : Format host.ReflectExecuteMsg
reflect = via host.reflect_msg of_reflect reflect_msg-of_reflect (list message)

abbrev pub host_account : Format host.AccountResponse
host_account = via (λ a. record { account = a }) (λ r. r.account) (λ r. refl) (option text)

abbrev host_info : Format host.AccountInfo
host_info =
    via (λ x. record { account = x.0; channel_id = x.1 }) (λ r. (r.account, r.channel_id))
      (λ r. refl) (pair text text)

abbrev pub host_accounts : Format host.ListAccountsResponse
host_accounts = via (λ l. record { accounts = l }) (λ r. r.accounts) (λ r. refl) (list host_info)

abbrev Ica : Type 0
Ica =
    String
    ⊎ ((String × (List CosmosMsg × Option String))
        ⊎ (String ⊎ ((String × (List QueryRequest × Option String)) ⊎ (String × String))))

abbrev to_ica : Ica → ica.ExecuteMsg
to_ica (inl a) = ica.update_admin a
to_ica (inr (inl (a, (b, c)))) = ica.send_msgs a b c
to_ica (inr (inr (inl a))) = ica.check_remote_balance a
to_ica (inr (inr (inr (inl (a, (b, c)))))) = ica.ibc_query a b c
to_ica (inr (inr (inr (inr (a, b))))) = ica.send_funds a b

abbrev of_ica : ica.ExecuteMsg → Ica
of_ica (ica.update_admin a) = inl a
of_ica (ica.send_msgs a b c) = inr (inl (a, (b, c)))
of_ica (ica.check_remote_balance a) = inr (inr (inl a))
of_ica (ica.ibc_query a b c) = inr (inr (inr (inl (a, (b, c)))))
of_ica (ica.send_funds a b) = inr (inr (inr (inr (a, b))))

pub to_ica-of_ica : (m : ica.ExecuteMsg) → to_ica (of_ica m) ≡ m
to_ica-of_ica (ica.update_admin a) = refl
to_ica-of_ica (ica.send_msgs a b c) = refl
to_ica-of_ica (ica.check_remote_balance a) = refl
to_ica-of_ica (ica.ibc_query a b c) = refl
to_ica-of_ica (ica.send_funds a b) = refl

abbrev pub ica_exec : Format ica.ExecuteMsg
ica_exec = via to_ica of_ica to_ica-of_ica (
    sum text (
      sum (pair text (pair (list message) (option text)))
        (sum text (sum (pair text (pair (list request) (option text))) (pair text text)))))

abbrev pub ica_admin : Format ica.AdminResponse
ica_admin = via (λ a. record { admin = a }) (λ r. r.admin) (λ r. refl) text

abbrev pub ica_account : Format ica.AccountResponse
ica_account =
    via (λ x. record { last_update_time = x.0; remote_addr = x.1.0; remote_balance = x.1.1 })
      (λ r. (r.last_update_time, (r.remote_addr, r.remote_balance))) (λ r. refl)
      (pair number (pair (option text) (list coin)))

abbrev ica_info : Format ica.AccountInfo
ica_info =
    via
      (λ x. record {
        channel_id = x.0;
        last_update_time = x.1.0;
        remote_addr = x.1.1.0;
        remote_balance = x.1.1.1;
      })
      (λ r. (r.channel_id, (r.last_update_time, (r.remote_addr, r.remote_balance)))) (λ r. refl)
      (pair text (pair number (pair (option text) (list coin))))

abbrev pub ica_accounts : Format ica.ListAccountsResponse
ica_accounts = via (λ l. record { accounts = l }) (λ r. r.accounts) (λ r. refl) (list ica_info)

abbrev pub ica_latest : Format ica.LatestQueryResponse
ica_latest =
    via (λ x. record { last_update_time = x.0; response = x.1 })
      (λ r. (r.last_update_time, r.response)) (λ r. refl) (pair number ack)

abbrev pub capturer_admin : Format capturer.AdminResponse
capturer_admin = via (λ a. record { admin = a }) (λ r. r.admin) (λ r. refl) text

abbrev pub capturer_result : Format capturer.ResultResponse
capturer_result = via (λ a. record { result = a }) (λ r. r.result) (λ r. refl) ack
