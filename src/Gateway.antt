-- ===== src/Gateway.antt =====
-- services/sip-gateway: the events of FreeSWITCH and the calls that they open and close.
pub mod Esl
pub mod Bridge
pub mod Sdp
pub mod Sip
