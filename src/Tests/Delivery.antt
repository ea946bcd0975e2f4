-- ===== src/Tests/Delivery.antt =====
-- Receiving, at one delivery from bob.
use privex.Prelude.{true, Option, none, some, [], ◌∷◌, nat_eq, string_eq, bytes_eq}
use privex.Data.Sessions.{LoadedSession}
use privex.Messaging.Acks.{AckOf}
use privex.Messaging.Receive.{receive_message}
use privex.Messaging.Receive.Labels.{AreLabelled, receive_message-AreLabelled}
use privex.Messaging.Receive.Safety.{IsContactSafe, receive_message-IsContactSafe}
use privex.Messaging.Receive.Answered.{IsForAnotherDevice, receive_message-AckOf}
use privex.Tests.Demo

receive_message-AreLabelled_example :
    AreLabelled Demo.env Demo.ws Demo.device
      (receive_message Demo.env Demo.ws Demo.device).1.messages
receive_message-AreLabelled_example = receive_message-AreLabelled Demo.env Demo.ws Demo.device

receive_message-IsContactSafe_example :
    IsContactSafe Demo.device.contacts (receive_message Demo.env Demo.ws Demo.device).1.contacts
receive_message-IsContactSafe_example = receive_message-IsContactSafe Demo.env Demo.ws Demo.device

receive_message-AckOf_example :
    AckOf "m1"
      (IsForAnotherDevice Demo.env Demo.ws Demo.device)
      []
      (receive_message Demo.env Demo.ws Demo.device).0
      (receive_message Demo.env Demo.ws Demo.device).1.acks
receive_message-AckOf_example = receive_message-AckOf Demo.env Demo.ws Demo.device

abbrev settled : Option LoadedSession
settled = some (record { ratchet_state = 1 ∷ []; pqxdh_init = none; received_ok = true })
