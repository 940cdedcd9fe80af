-- ===== src/Tests/Units.antt =====
-- The unit tests of the contracts pass.
use cw_ibc_demo.Prelude.{◌≡◌, refl, Bool, true, false, Outcome, ok, err, panic, lookup}
use cw_ibc_demo.Platform.Total.{total}
use cw_ibc_demo.Platform.Demo.Assoc.{entered, dropped}
use cw_ibc_demo.Host.State as host
use cw_ibc_demo.Host.Contract as contract
use cw_ibc_demo.Host.Packet as packet
use cw_ibc_demo.SimpleIca.Checks.{check_order, check_version}
use cw_ibc_demo.Units.{Steps}
use cw_ibc_demo.Units.Host as host_tests
use cw_ibc_demo.Units.Controller as controller_tests
use cw_ibc_demo.Units.Capturer as capturer_tests
use cw_ibc_demo.Controller.State as controller
use cw_ibc_demo.Controller.Contract as ica
use cw_ibc_demo.Controller.Ibc as ibc
use cw_ibc_demo.Capturer.Contract as capturer
use cw_ibc_demo.SimpleIca.Ack as ack
use cw_ibc_demo.Tests.Mocks.{mocks}

abbrev ended : {A : Type 0} → Outcome ⊥ A → Bool
ended (ok a) = true
ended (err e) = false
ended (panic t) = false

abbrev passes : {S A : Type 0} → Steps S A → S → Bool
passes m s = ended (m s).0

instantiate_works : passes (host_tests.instantiate_works total mocks) (host.blank total) ≡ true
instantiate_works = refl

enforce_version_in_handshake :
    passes (host_tests.enforce_version_in_handshake total mocks) (host.blank total) ≡ true
unfolding contract.ibc_channel_open check_order check_version
enforce_version_in_handshake = refl

proper_handshake_flow :
    passes (host_tests.proper_handshake_flow total mocks) (host.blank total) ≡ true
unfolding contract.ibc_channel_open contract.ibc_channel_connect check_order check_version
    contract.reply contract.reply_init_callback contract.query lookup entered
proper_handshake_flow = refl

handle_dispatch_packet :
    passes (host_tests.handle_dispatch_packet total mocks) (host.blank total) ≡ true
unfolding contract.ibc_channel_open contract.ibc_channel_connect check_order check_version
    contract.reply contract.reply_init_callback packet.ibc_packet_receive packet.receive
    packet.receive_dispatch lookup entered
handle_dispatch_packet = refl

check_close_channel : passes (host_tests.check_close_channel total mocks) (host.blank total) ≡ true
unfolding contract.ibc_channel_open contract.ibc_channel_connect contract.ibc_channel_close
    check_order check_version contract.reply contract.reply_init_callback contract.query lookup
    entered dropped
check_close_channel = refl

instantiate_works_controller :
    passes (controller_tests.instantiate_works total mocks) (controller.blank total) ≡ true
instantiate_works_controller = refl

enforce_version_in_handshake_controller :
    passes (controller_tests.enforce_version_in_handshake total mocks) (controller.blank total)
    ≡ true
unfolding ibc.ibc_channel_open check_order check_version
enforce_version_in_handshake_controller = refl

proper_handshake_flow_controller :
    passes (controller_tests.proper_handshake_flow total mocks) (controller.blank total) ≡ true
unfolding ibc.ibc_channel_open ibc.ibc_channel_connect check_order check_version ibc.ibc_packet_ack
    ibc.acknowledge ibc.acknowledge_who_am_i ibc.set_first_addr ica.query lookup entered
proper_handshake_flow_controller = refl

dispatch_message_send_and_ack :
    passes (controller_tests.dispatch_message_send_and_ack total mocks) (controller.blank total)
    ≡ true
unfolding ibc.ibc_channel_open ibc.ibc_channel_connect check_order check_version ibc.ibc_packet_ack
    ibc.acknowledge ibc.acknowledge_who_am_i ibc.acknowledge_dispatch ibc.set_first_addr ica.execute
    ica.execute_send_msgs lookup entered
dispatch_message_send_and_ack = refl

send_remote_funds :
    passes (controller_tests.send_remote_funds total mocks) (controller.blank total) ≡ true
unfolding ibc.ibc_channel_open ibc.ibc_channel_connect check_order check_version ibc.ibc_packet_ack
    ibc.acknowledge ibc.acknowledge_who_am_i ibc.set_first_addr ica.execute ica.execute_send_funds
    lookup entered
send_remote_funds = refl

send_message_enforces_permissions :
    passes (capturer_tests.send_message_enforces_permissions total mocks) (capturer.blank total)
    ≡ true
unfolding capturer.execute
send_message_enforces_permissions = refl

query_and_callback_work :
    passes (capturer_tests.query_and_callback_work total mocks) (capturer.blank total) ≡ true
unfolding capturer.execute capturer.execute_receive_ibc_response capturer.query_result
    ack.unwrap_into lookup entered
query_and_callback_work = refl
