-- ===== src/Body.antt =====
-- Commands to body devices: `BodyControlService` of eidolon_agent/domain/body_control/service.py
-- and `resolve_body_device` of eidolon_agent/domain/body_control/resolver.py. Devices and
-- capabilities have the fields that this code reads of the SDK's types.
pub mod Resolver
pub mod Service
